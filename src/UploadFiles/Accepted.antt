-- ===== src/UploadFiles/Accepted.antt =====
-- Which files backend/app/services/upload_validation.py accepts, and what it leaves of the others.
use shiftmate_web.Prelude.{
  ℕ, ◌+◌, ◌≤◌, ◌<◌, ◌≡◌, sym, subst, ◌∙◌, ap, true, not, ◌||◌, Option, none, some, List, [], ◌∷◌,
  ◌++◌, arith, ltb, ◌==◌, length, length-append, append-nil, append_assoc, Bool-cases, inl, inr,
  Option-cases,
}
use shiftmate_web.Prelude.Result.{
  Result, ok, raise, Result-cases, >>=-eq-ok, raise_if-eq-ok, or_raise-eq-ok,
}
use shiftmate_web.Prelude.Text.{Text, text_eq, starts_with}
use shiftmate_web.UploadFiles.{
  UploadValidationError, pdf_invalid, pdf_page_limit, magic_mismatch, UploadFile, ValidatedUpload,
  FileLibrary, pdf_type, allowed_upload, write_chunks, pdf_page_count, pages, check_content,
  check_type, validate_to_temporary_file,
}

-- All that the reads give.
abbrev pub joined : List Text → Text
joined [] = []
joined (chunk ∷ chunks) = chunk ++ joined chunks

write_chunks-joined :
    (max_bytes : ℕ) (written : Text) (chunks : List Text) {content : Text}
    → length written ≤ max_bytes
    → write_chunks max_bytes written chunks ≡ ok content
    → (content ≡ written ++ joined chunks) × (length content ≤ max_bytes)
unfolding write_chunks
write_chunks-joined max_bytes written [] {content} fits h =
    let same : written ≡ content = cc in
    (sym same ∙ sym (append-nil written), subst (λ s. length s ≤ max_bytes) same fits)
write_chunks-joined max_bytes written (chunk ∷ chunks) fits h =
    elim (Bool-cases (ltb max_bytes (length written + length chunk))) [
      | inl large ↦ absurd (let h' = rw (write_chunks, large) at h in cc h')
      | inr small ↦
          let h' = rw (write_chunks, small) at h in
          let amount = length-append written chunk in
          let fits' : length (written ++ chunk) ≤ max_bytes = ground (arith, amount) in
          let (same, bounded) = write_chunks-joined max_bytes (written ++ chunk) chunks fits' h' in
          (same ∙ append_assoc written chunk (joined chunks), bounded)
    ]

module _ (library : FileLibrary) where
  -- A file that is accepted, with its temporary copy: one of the allowed types, as its name and its
  -- declared type have it and its first bytes show, not too large, and if it is a PDF then of a number
  -- of pages in bounds.
  pub record IsAccepted (max_bytes max_pages : ℕ) (upload : UploadFile) (v : ValidatedUpload)
      (content : Text) : Type 0 where
    pub media_type : Text
    pub magic : Text
    pub is_allowed : allowed_upload (library.suffix upload.filename) ≡ some (media_type, magic)
    pub declared : text_eq upload.content_type media_type ≡ true
    pub same_type : v.media_type ≡ media_type
    pub whole : content ≡ joined upload.reads
    pub shown : starts_with magic content ≡ true
    pub sized : v.size ≡ length content
    pub small : v.size ≤ max_bytes
    pub hashed : v.sha256 ≡ library.sha256 content
    pub paged :
        text_eq media_type pdf_type ≡ true
        → (n : ℕ) × (v.page_count ≡ some n) × (0 < n) × (n ≤ max_pages)

  pages-bounded :
      (max_pages : ℕ) (media_type content : Text) {count : Option ℕ}
      → pages library max_pages media_type content ≡ ok count
      → text_eq media_type pdf_type ≡ true
      → (n : ℕ) × (count ≡ some n) × (0 < n) × (n ≤ max_pages)
  unfolding pages pdf_page_count
  pages-bounded max_pages media_type content {count} h is_pdf =
      let h₁ = rw (pages, is_pdf) at h in
      let (n, counted, h₂) = >>=-eq-ok (pdf_page_count library max_pages content) _ h₁ in
      let (m, found, h₃) = or_raise-eq-ok (library.count_pages content) pdf_invalid _ counted in
      let (within, h₄) = raise_if-eq-ok (m == 0 || ltb max_pages m) pdf_page_limit _ h₃ in
      let same : m ≡ n = cc h₄ in
      let positive : 0 < m = ground arith in
      let bounded : m ≤ max_pages = ground arith in
      (n, sym (cc h₂), subst (λ k. 0 < k) same positive, subst (λ k. k ≤ max_pages) same bounded)

  check_content-IsAccepted :
      (max_bytes max_pages : ℕ) (hex media_type magic : Text) (upload : UploadFile)
      {v : ValidatedUpload} {content : Text}
      → allowed_upload (library.suffix upload.filename) ≡ some (media_type, magic)
      → text_eq upload.content_type media_type ≡ true
      → check_content library max_bytes max_pages
          (library.suffix upload.filename)
          hex
          (media_type, magic)
          upload.reads
        ≡ ok (v, content)
      → IsAccepted max_bytes max_pages upload v content
  unfolding check_content
  check_content-IsAccepted max_bytes max_pages hex media_type magic upload {v} {content} is_allowed
        declared h =
      let (bytes, written, h₁) = >>=-eq-ok (write_chunks max_bytes [] upload.reads) _ h in
      let (shown, h₂) = raise_if-eq-ok (not (starts_with magic bytes)) magic_mismatch _ h₁ in
      let (count, counted, h₃) = >>=-eq-ok (pages library max_pages media_type bytes) _ h₂ in
      let (whole, small) = write_chunks-joined max_bytes [] upload.reads (omega arith) written in
      let same : bytes ≡ content = cc h₃ in
      let has_magic : starts_with magic bytes ≡ true = ground arith in
      let sized : length bytes ≡ v.size = cc h₃ in
      let same_count : v.page_count ≡ count = cc h₃ in
      record {
        media_type = media_type;
        magic = magic;
        is_allowed = is_allowed;
        declared = declared;
        same_type = cc h₃;
        whole = sym same ∙ whole;
        shown = subst (λ s. starts_with magic s ≡ true) same has_magic;
        sized = sym sized ∙ ap length same;
        small = subst (λ n. n ≤ max_bytes) sized small;
        hashed = cc (h₃, same);
        paged = λ is_pdf.
            (let (n, some_pages, positive, bounded) =
                pages-bounded max_pages media_type bytes counted is_pdf in
              (n, same_count ∙ some_pages, positive, bounded));
      }

  -- A file that is refused leaves no temporary file. One that is accepted leaves one with all that was
  -- read, at most `max_bytes` bytes, and is of an allowed type: its name, its declared type and its
  -- first bytes agree, the size and the checksum are those of what was read, and a PDF has between one
  -- and `max_pages` pages.
  pub validate_to_temporary_file-IsAccepted :
      (max_bytes max_pages : ℕ) (hex : Text) (upload : UploadFile)
      {outcome : Result UploadValidationError ValidatedUpload} {file : Option Text}
      → validate_to_temporary_file library max_bytes max_pages hex upload ≡ (outcome, file)
      → ((e : UploadValidationError) → outcome ≡ raise e → file ≡ none)
        × ((v : ValidatedUpload)
            → outcome ≡ ok v
            → (content : Text) × (file ≡ some content)
              × IsAccepted max_bytes max_pages upload v content)
  unfolding validate_to_temporary_file check_type
  validate_to_temporary_file-IsAccepted max_bytes max_pages hex upload {outcome} {file} h =
      elim (Option-cases (allowed_upload (library.suffix upload.filename))) [
        | inl unknown ↦ let h₁ = rw unknown at h in (λ e k. cc h₁, λ v k. absurd (cc (h₁, k)))
        | inr ((media_type, magic), is_allowed) ↦
            let h₁ = rw is_allowed at h in
            elim (Bool-cases (text_eq upload.content_type media_type)) [
              | inr differs ↦
                  let h₂ = rw (check_type, differs) at h₁ in
                  (λ e k. cc h₂, λ v k. absurd (cc (h₂, k)))
              | inl declared ↦
                  let h₂ = rw (check_type, declared) at h₁ in
                  elim (Result-cases (
                    check_content library max_bytes max_pages (library.suffix upload.filename) hex
                      (media_type, magic) upload.reads)) [
                        | inl (failure, refused) ↦
                            let h₃ = rw refused at h₂ in (λ e k. cc h₃, λ v k. absurd (cc (h₃, k)))
                        | inr ((v', content), accepted) ↦
                            let h₃ = rw accepted at h₂ in
                            (
                              λ e k. absurd (cc (h₃, k)),
                              λ v k.
                                  (let same : v' ≡ v = cc (h₃, k) in
                                    (
                                      content,
                                      cc h₃,
                                      subst (λ w. IsAccepted max_bytes max_pages upload w content)
                                          same
                                          (check_content-IsAccepted max_bytes max_pages hex
                                            media_type magic upload is_allowed declared accepted),
                                    )),
                            )
                      ]
            ]
      ]
