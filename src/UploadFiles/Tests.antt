-- ===== src/UploadFiles/Tests.antt =====
-- The theorem on backend/app/services/upload_validation.py at a concrete input.
use shiftmate_web.Prelude.{◌≡◌, refl, none, some, [], ◌∷◌}
use shiftmate_web.Prelude.Result.{Result, ok, raise}
use shiftmate_web.Prelude.Text.{Text, codes}
use shiftmate_web.UploadFiles.{
  UploadValidationError, too_large, UploadFile, ValidatedUpload, FileLibrary, pdf_type,
  allowed_upload, write_chunks, pdf_page_count, pages, check_content, check_type,
  validate_to_temporary_file,
}
use shiftmate_web.UploadFiles.Accepted.{IsAccepted, validate_to_temporary_file-IsAccepted}

abbrev library : FileLibrary
library = record {
  suffix = λ name. codes ".pdf";
  sha256 = λ content. codes "00";
  count_pages = λ content. some 2;
}

abbrev upload : UploadFile
upload = record {
  filename = codes "Schedule.PDF";
  content_type = pdf_type;
  reads = codes "%PDF-1" ∷ codes ".7" ∷ [];
}

abbrev accepted : ValidatedUpload
accepted = record {
  filename = codes "ab.pdf";
  media_type = pdf_type;
  sha256 = codes "00";
  size = 8;
  page_count = some 2;
}

validated :
    validate_to_temporary_file library 8 3 (codes "ab") upload
    ≡ (ok accepted, some (codes "%PDF-1.7"))
unfolding validate_to_temporary_file allowed_upload check_type check_content write_chunks pages
    pdf_page_count
validated = refl

-- One byte less, and the file is refused and removed.
refused : validate_to_temporary_file library 7 3 (codes "ab") upload ≡ (raise too_large, none)
unfolding validate_to_temporary_file allowed_upload check_type check_content write_chunks pages
    pdf_page_count
refused = refl

abbrev outcome : Result UploadValidationError ValidatedUpload
outcome = ok accepted

validate_to_temporary_file-IsAccepted_example :
    ((e : UploadValidationError) → outcome ≡ raise e → some (codes "%PDF-1.7") ≡ none)
    × ((v : ValidatedUpload)
        → outcome ≡ ok v
        → (content : Text) × (some (codes "%PDF-1.7") ≡ some content)
          × IsAccepted library 8 3 upload v content)
validate_to_temporary_file-IsAccepted_example =
    validate_to_temporary_file-IsAccepted library 8 3 (codes "ab") upload validated
