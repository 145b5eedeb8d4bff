-- ===== src/Policies/Indexed.antt =====
-- How an upload of backend/app/api/v1/policies.py ends.
use shiftmate_web.Prelude.{ℕ, ◌≡◌, Bool, true, false, some, List, ◌==◌, filter}
use shiftmate_web.Prelude.Result.{Result, ok, raise}
use shiftmate_web.Prelude.Text.{Text}
use shiftmate_web.Database.{Uuid, ready, policy_failed, PolicyDocument, PolicyChunk}
use shiftmate_web.Policies.Documents.{
  PolicyTables, NewPolicyChunk, PolicyError, document_id, is_indexing, find_document, chunk_rows,
}
use shiftmate_web.Policies.Prepare.{PrepareError, refused, over_quota}
use shiftmate_web.Policies.Uploads.{UploadError, quota_refused, error_code}

module _ {Vector : Type 0} where
  -- The chunks of a document.
  abbrev pub chunks_of : Uuid → PolicyTables Vector → List (PolicyChunk Vector)
  chunks_of i tables = filter (λ c. c.document_id == i) tables.chunks

  module _ (mint : ℕ → Uuid) where
    -- The end of the upload of a document that is stored, on the chunks or the error that
    -- `prepare_chunks` gives, where it is not over the quota.
    pub record IsEnded (i : Uuid) (prepared : Result PolicyError (List (NewPolicyChunk Vector)))
        (tables' : PolicyTables Vector) (d d' : PolicyDocument) : Type 0 where
      pub stored : find_document i tables' ≡ some d'
      pub over : is_indexing d'.status ≡ false
      pub unless_indexing : is_indexing d.status ≡ false → d' ≡ d
      pub succeeds :
          (chunks : List (NewPolicyChunk Vector))
          → prepared ≡ ok chunks
          → is_indexing d.status ≡ true
          → (d'.status ≡ ready) × (chunks_of i tables' ≡ chunk_rows mint i chunks)
      pub fails :
          (e : PolicyError)
          → prepared ≡ raise e
          → is_indexing d.status ≡ true
          → (d'.status ≡ policy_failed) × (d'.error_code ≡ some (error_code e))

    -- The answer and the tables of an upload whose preparation ends, on the tables of that moment.
    abbrev pub IsAnswered :
        Uuid
        → Result PrepareError (List (NewPolicyChunk Vector))
        → PolicyTables Vector
        → PolicyDocument
        → Result UploadError (PolicyDocument × Bool) × PolicyTables Vector
        → Type 0
    IsAnswered i (raise (over_quota code)) tables d (answer, tables') =
        (answer ≡ raise (quota_refused code)) × (tables' ≡ tables)
    IsAnswered i (raise (refused e)) tables d (answer, tables') =
        (d' : PolicyDocument) × (answer ≡ ok (d', false)) × IsEnded i (raise e) tables' d d'
    IsAnswered i (ok chunks) tables d (answer, tables') =
        (d' : PolicyDocument) × (answer ≡ ok (d', false)) × IsEnded i (ok chunks) tables' d d'
