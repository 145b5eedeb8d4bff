-- ===== src/UploadFiles.antt =====
-- backend/app/services/upload_validation.py: the checks on an uploaded file, which is written to a
-- temporary one.
pub mod Accepted
mod Tests
use shiftmate_web.Prelude.{
  ℕ, ◌+◌, Bool, true, false, not, ◌||◌, Option, none, some, List, [], ◌∷◌, ◌++◌, ltb, ◌==◌, length,
  if◌then◌else◌,
}
use shiftmate_web.Prelude.Result.{Result, ok, raise, ◌>>=◌, ◌>>◌, raise_if, or_raise}
use shiftmate_web.Prelude.Text.{Text, codes, text_eq, starts_with}

-- The codes of `UploadValidationError`.
pub data UploadValidationError : Type 0 where
  type_not_allowed media_type_mismatch too_large magic_mismatch pdf_invalid pdf_page_limit :
      UploadValidationError

-- `UploadFile`, with what its reads give; a byte is a number, and no file has no name.
pub record UploadFile : Type 0 where
  pub filename : Text
  pub content_type : Text
  pub reads : List Text

-- `ValidatedUpload`, without its path.
pub record ValidatedUpload : Type 0 where
  pub filename : Text
  pub media_type : Text
  pub sha256 : Text
  pub size : ℕ
  pub page_count : Option ℕ

-- `Path(...).suffix.lower()`, SHA-256 in hexadecimal, and the pages that the PDF reader counts, if it
-- does not raise.
pub record FileLibrary : Type 0 where
  pub suffix : Text → Text
  pub sha256 : Text → Text
  pub count_pages : Text → Option ℕ

abbrev pub pdf_type : Text
pdf_type = codes "application/pdf"

-- The media type and the first bytes of an entry of `ALLOWED_UPLOADS`.
abbrev pub jpeg : Text × Text
jpeg = (codes "image/jpeg", 255 ∷ 216 ∷ 255 ∷ [])

abbrev pub png : Text × Text
png = (codes "image/png", 137 ∷ 80 ∷ 78 ∷ 71 ∷ 13 ∷ 10 ∷ 26 ∷ 10 ∷ [])

abbrev pub pdf : Text × Text
pdf = (pdf_type, codes "%PDF-")

-- `ALLOWED_UPLOADS.get(original_suffix)`.
unfoldable pub allowed_upload : Text → Option (Text × Text)
allowed_upload suffix =
    if text_eq suffix (codes ".jpg")
    then some jpeg
    else (if text_eq suffix (codes ".jpeg")
        then some jpeg
        else (if text_eq suffix (codes ".png")
            then some png
            else (if text_eq suffix (codes ".pdf") then some pdf else none)))

-- The loop that reads and writes, from the bytes that are written.
unfoldable pub write_chunks : ℕ → Text → List Text → Result UploadValidationError Text
write_chunks max_bytes written [] = ok written
write_chunks max_bytes written (chunk ∷ chunks) =
    elim (ltb max_bytes (length written + length chunk)) [
      | true ↦ raise too_large
      | false ↦ write_chunks max_bytes (written ++ chunk) chunks
    ]

module _ (library : FileLibrary) where
  -- `_pdf_page_count`.
  unfoldable pub pdf_page_count : ℕ → Text → Result UploadValidationError ℕ
  pdf_page_count max_pages content = do
    page_count ← or_raise (library.count_pages content) pdf_invalid
    raise_if (page_count == 0 || ltb max_pages page_count) pdf_page_limit
    ok page_count

  -- The count of the pages of a PDF, and none of another file.
  unfoldable pub pages : ℕ → Text → Text → Result UploadValidationError (Option ℕ)
  unfolding pdf_page_count
  pages max_pages media_type content = elim (text_eq media_type pdf_type) [
    | true ↦ do page_count ← pdf_page_count max_pages content; ok (some page_count)
    | false ↦ ok none
  ]

  -- The body of the `try`, with the bytes of the file.
  unfoldable pub check_content :
      ℕ
      → ℕ
      → Text
      → Text
      → Text × Text
      → List Text
      → Result UploadValidationError (ValidatedUpload × Text)
  unfolding write_chunks pages
  check_content max_bytes max_pages suffix hex (media_type, magic) reads = do
    content ← write_chunks max_bytes [] reads
    raise_if (not (starts_with magic content)) magic_mismatch
    page_count ← pages max_pages media_type content
    ok (
      record {
        filename = hex ++ suffix;
        media_type = media_type;
        sha256 = library.sha256 content;
        size = length content;
        page_count = page_count;
      },
      content,
    )

  -- The outcome, and the temporary file: an error removes it.
  abbrev pub keep :
      Result UploadValidationError (ValidatedUpload × Text)
      → Result UploadValidationError ValidatedUpload × Option Text
  keep (raise e) = (raise e, none)
  keep (ok (upload, content)) = (ok upload, some content)

  -- The check of the media type, in front of the temporary file.
  unfoldable pub check_type :
      ℕ
      → ℕ
      → Text
      → UploadFile
      → Option (Text × Text)
      → Result UploadValidationError ValidatedUpload × Option Text
  unfolding check_content
  check_type max_bytes max_pages hex upload none = (raise type_not_allowed, none)
  check_type max_bytes max_pages hex upload (some expected) =
      elim (text_eq upload.content_type expected.0) [
        | false ↦ (raise media_type_mismatch, none)
        | true ↦ keep (
            check_content max_bytes max_pages (library.suffix upload.filename) hex expected
              upload.reads)
      ]

  -- `validate_to_temporary_file`; `hex` is the id that is drawn for the file's name.
  unfoldable pub validate_to_temporary_file :
      ℕ → ℕ → Text → UploadFile → Result UploadValidationError ValidatedUpload × Option Text
  unfolding allowed_upload check_type
  validate_to_temporary_file max_bytes max_pages hex upload =
      check_type max_bytes max_pages hex upload (allowed_upload (library.suffix upload.filename))
