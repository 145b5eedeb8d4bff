-- ===== src/Policies/Uploads.antt =====
-- `create_policy` of backend/app/api/v1/policies.py: the upload of a policy, in two transactions with
-- other requests between them.
use shiftmate_web.Prelude.{ℕ, Bool, true, false, not, Option, none, List, [], ◌∷◌, if◌then◌else◌}
use shiftmate_web.Prelude.Result.{Result, ok, raise, ◌>>=◌, ◌>>◌, raise_if, or_raise}
use shiftmate_web.Prelude.Text.{Text, codes, text_eq}
use shiftmate_web.Database.{Uuid, PolicyDocument}
use shiftmate_web.Policies.{strip}
use shiftmate_web.Policies.Extract.{pdf_extraction_failed, text_not_found}
use shiftmate_web.Policies.Documents.{
  PolicyTables, NewPolicyChunk, PolicyError, policy_not_found, gemini_invalid_response,
  foreign_key_violated, extract_refused, text_refused, gemini_failed, PolicyUploadInfo,
  create_draft, complete_indexing, fail_indexing,
}
use shiftmate_web.Policies.Prepare.{PrepareError, refused, over_quota, Embeddings, prepare_chunks}

-- A file that upload validation has accepted (backend/app/services/upload_validation.py).
pub record ValidatedUpload : Type 0 where
  pub media_type : Text
  pub page_count : Option ℕ
  pub filename : Text
  pub sha256 : Text
  pub source : Option (List Text)

-- The answers with an error, and the exceptions that leave `create_policy`: a `QuotaExceededError`
-- with its code, which the application's handler answers, and an error that no handler takes.
pub data UploadError : Type 0 where
  confirmation_required title_required pdf_required : UploadError
  upload_refused quota_refused : Text → UploadError
  unhandled : PolicyError → UploadError

-- `error.code` or `str(error)`.
abbrev pub error_code : PolicyError → Text
error_code policy_not_found = codes "POLICY_NOT_FOUND"
error_code gemini_invalid_response = codes "GEMINI_INVALID_RESPONSE"
error_code foreign_key_violated = codes ""
error_code (extract_refused pdf_extraction_failed) = codes "POLICY_PDF_EXTRACTION_FAILED"
error_code (extract_refused text_not_found) = codes "POLICY_TEXT_NOT_FOUND"
error_code (text_refused e) = codes "POLICY_TEXT_NOT_FOUND"
error_code (gemini_failed code) = code

abbrev pub is_empty : Text → Bool
is_empty [] = true
is_empty (c ∷ s) = false

-- `upload.media_type != "application/pdf" or upload.page_count is None`, and the count.
abbrev pub pdf_page_count : ValidatedUpload → Option ℕ
pdf_page_count upload =
    if text_eq upload.media_type (codes "application/pdf") then upload.page_count else none

-- The checks of the request, up to the `PolicyUploadInfo`.
unfoldable pub check_upload :
    Bool → Text → Result Text ValidatedUpload → Result UploadError PolicyUploadInfo
check_upload confirmed title (raise code) = do
  raise_if (not confirmed) confirmation_required
  raise_if (is_empty (strip title)) title_required
  raise (upload_refused code)
check_upload confirmed title (ok upload) = do
  raise_if (not confirmed) confirmation_required
  raise_if (is_empty (strip title)) title_required
  page_count ← or_raise (pdf_page_count upload) pdf_required
  ok (record {
    source = upload.source;
    title = strip title;
    filename = upload.filename;
    sha256 = upload.sha256;
    page_count = page_count;
  })

module _ {Vector : Type 0} (embeddings : Embeddings Vector) (mint : ℕ → Uuid) where
  abbrev pub Tables : Type 0
  Tables = PolicyTables Vector

  -- The answer and the tables that an operation in a transaction leaves; an error rolls it back.
  abbrev pub settle :
      Tables
      → Result PolicyError (PolicyDocument × Tables)
      → Result UploadError (PolicyDocument × Bool) × Tables
  settle tables (raise e) = (raise (unhandled e), tables)
  settle tables (ok (document, tables')) = (ok (document, false), tables')

  -- The end of an upload, on what `prepare_chunks` gives: the `except` clause does not take a
  -- `QuotaExceededError`, which leaves the document as it is.
  unfoldable pub index_document :
      ℕ
      → Uuid
      → Result PrepareError (List (NewPolicyChunk Vector))
      → Tables
      → Result UploadError (PolicyDocument × Bool) × Tables
  index_document now i (raise (over_quota code)) tables = (raise (quota_refused code), tables)
  index_document now i (raise (refused e)) tables =
      settle tables (fail_indexing now i (error_code e) tables)
  index_document now i (ok chunks) tables =
      settle tables (complete_indexing mint now i chunks tables)

  -- `create_policy`; `between` is what other requests do between its transactions.
  unfoldable pub create_policy :
      Uuid
      → ℕ
      → ℕ
      → Bool
      → Text
      → Result Text ValidatedUpload
      → (Tables → Tables)
      → Tables
      → Result UploadError (PolicyDocument × Bool) × Tables
  unfolding index_document
  create_policy new_id now later confirmed title validated between tables =
      elim (check_upload confirmed title validated) [
        | raise e ↦ (raise e, tables)
        | ok upload ↦
            let ((document, duplicate), drafted) = create_draft new_id now upload tables in
            elim duplicate [
              | true ↦ (ok (document, true), drafted)
              | false ↦
                  index_document later document.id (prepare_chunks embeddings upload)
                    (between drafted)
            ]
      ]
