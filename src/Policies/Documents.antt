-- ===== src/Policies/Documents.antt =====
-- backend/app/repositories/policies.py, and the operations of `PolicyService` in
-- backend/app/services/policies.py on the documents of a user.
use shiftmate_web.Prelude.{
  ℕ, Bool, true, false, not, ◌&&◌, ◌||◌, Option, none, some, List, [], ◌∷◌, ◌++◌, ltb, leb, ◌==◌,
  filter, find?, sort_by, length, if◌then◌else◌,
}
use shiftmate_web.Prelude.Result.{Result, ok, ◌>>=◌, ◌>>◌, raise_if, or_raise}
use shiftmate_web.Prelude.Text.{Text, text_eq}
use shiftmate_web.Database.{
  Uuid, PolicyStatus, indexing, ready, policy_failed, PolicyDocument, PolicyChunk,
}
use shiftmate_web.Database.Rows.{select, update, delete, has_id}
use shiftmate_web.Policies.Extract.{ExtractError}
use shiftmate_web.Policies.{ChunkError, strip}

-- `policy_documents` and `policy_chunks`.
pub record PolicyTables (Vector : Type 0) : Type 0 where
  pub documents : List PolicyDocument
  pub chunks : List (PolicyChunk Vector)

-- `NewPolicyDocument`.
pub record NewPolicyDocument : Type 0 where
  pub title : Text
  pub filename : Text
  pub sha256 : Text
  pub page_count : ℕ

-- `NewPolicyChunk`, without the metadata, which repeat the document's.
pub record NewPolicyChunk (Vector : Type 0) : Type 0 where
  pub content : Text
  pub page_number : ℕ
  pub chunk_index : ℕ
  pub embedding : Vector

-- `PolicyNotFoundError`, `PolicyServiceError`, `PolicyTextError` and `GeminiRagError`, and the error
-- of the database on a chunk of no document.
pub data PolicyError : Type 0 where
  policy_not_found gemini_invalid_response foreign_key_violated : PolicyError
  extract_refused : ExtractError → PolicyError
  text_refused : ChunkError → PolicyError
  gemini_failed : Text → PolicyError

-- `PolicyUploadInfo`; `source` is what the PDF reader gives for its path.
pub record PolicyUploadInfo : Type 0 where
  pub source : Option (List Text)
  pub title : Text
  pub filename : Text
  pub sha256 : Text
  pub page_count : ℕ

abbrev pub document_id : PolicyDocument → Uuid
document_id d = d.id

abbrev pub is_indexing : PolicyStatus → Bool
is_indexing indexing = true
is_indexing _ = false

abbrev pub is_ready : PolicyStatus → Bool
is_ready ready = true
is_ready _ = false

-- `ORDER BY created_at DESC, id DESC`.
abbrev pub document_before : PolicyDocument → PolicyDocument → Bool
document_before a b =
    ltb b.created_at a.created_at || (a.created_at == b.created_at && leb b.id a.id)

-- The rows that `UPDATE policy_documents ... WHERE id = :document_id AND status = 'indexing'` leaves.
abbrev pub ended : ℕ → PolicyStatus → Option Text → PolicyDocument → PolicyDocument
ended now status code d =
    if is_indexing d.status
    then record d { status = status; error_code = code; updated_at = now }
    else d

module _ {Vector : Type 0} where
  -- `get_document` of the repository.
  abbrev pub find_document : Uuid → PolicyTables Vector → Option PolicyDocument
  find_document i tables = select document_id i tables.documents

  -- `list_documents`.
  unfoldable pub list_documents : PolicyTables Vector → List PolicyDocument
  list_documents tables = sort_by document_before tables.documents

  -- `INSERT ... ON CONFLICT (owner_id, sha256) DO NOTHING`, or else the row that is there; whether it
  -- was there already.
  unfoldable pub create_or_get_document :
      Uuid
      → ℕ
      → NewPolicyDocument
      → PolicyTables Vector
      → (PolicyDocument × Bool) × PolicyTables Vector
  create_or_get_document new_id now new tables =
      elim (find? (λ d. text_eq d.sha256 new.sha256) tables.documents) [
        | some d ↦ ((d, true), tables)
        | none ↦
            let row : PolicyDocument = record {
              id = new_id;
              title = new.title;
              filename = new.filename;
              sha256 = new.sha256;
              status = indexing;
              page_count = new.page_count;
              error_code = none;
              created_at = now;
              updated_at = now;
            } in
            ((row, false), record tables { documents = row ∷ tables.documents })
      ]

  -- The rows of the loop of `mark_ready`; `mint` is the id that is drawn for the chunk of an index.
  abbrev pub chunk_rows :
      (ℕ → Uuid) → Uuid → List (NewPolicyChunk Vector) → List (PolicyChunk Vector)
  chunk_rows mint i [] = []
  chunk_rows mint i (c ∷ chunks) =
      record {
        id = mint c.chunk_index;
        document_id = i;
        content = c.content;
        page_number = c.page_number;
        chunk_index = c.chunk_index;
        embedding = c.embedding;
      }
      ∷ chunk_rows mint i chunks

  -- `DELETE FROM policy_chunks WHERE document_id = :document_id`.
  abbrev pub without_chunks : Uuid → List (PolicyChunk Vector) → List (PolicyChunk Vector)
  without_chunks i chunks = filter (λ c. not (c.document_id == i)) chunks

  -- `mark_ready`: the first chunk of a document that is not there breaks the foreign key.
  unfoldable pub mark_ready :
      (ℕ → Uuid)
      → ℕ
      → Uuid
      → List (NewPolicyChunk Vector)
      → PolicyTables Vector
      → Result PolicyError (PolicyTables Vector)
  mark_ready mint now i chunks tables = do
    raise_if (ltb 0 (length chunks) && not (has_id document_id i tables.documents))
        foreign_key_violated
    ok (record {
      documents = update document_id i (ended now ready none) tables.documents;
      chunks = chunk_rows mint i chunks ++ without_chunks i tables.chunks;
    })

  -- `mark_failed`.
  unfoldable pub mark_failed : ℕ → Uuid → Text → PolicyTables Vector → PolicyTables Vector
  mark_failed now i code tables = record tables {
    documents = update document_id i (ended now policy_failed (some code)) tables.documents;
  }

  -- `PolicyService.get_document`.
  abbrev pub get_document : Uuid → PolicyTables Vector → Result PolicyError PolicyDocument
  get_document i tables = or_raise (find_document i tables) policy_not_found

  -- `PolicyService.delete_document`; the chunks go with the document (ON DELETE CASCADE).
  unfoldable pub delete_document :
      Uuid → PolicyTables Vector → Result PolicyError (PolicyTables Vector)
  delete_document i tables = do
    raise_if (not (has_id document_id i tables.documents)) policy_not_found
    ok (record {
      documents = delete document_id i tables.documents;
      chunks = without_chunks i tables.chunks;
    })

  -- `PolicyService.create_draft`.
  unfoldable pub create_draft :
      Uuid
      → ℕ
      → PolicyUploadInfo
      → PolicyTables Vector
      → (PolicyDocument × Bool) × PolicyTables Vector
  unfolding create_or_get_document
  create_draft new_id now upload tables =
      create_or_get_document new_id now
        (record {
          title = strip upload.title;
          filename = upload.filename;
          sha256 = upload.sha256;
          page_count = upload.page_count;
        })
        tables

  -- `PolicyService.complete_indexing`.
  unfoldable pub complete_indexing :
      (ℕ → Uuid)
      → ℕ
      → Uuid
      → List (NewPolicyChunk Vector)
      → PolicyTables Vector
      → Result PolicyError (PolicyDocument × PolicyTables Vector)
  unfolding mark_ready
  complete_indexing mint now i chunks tables = do
    tables' ← mark_ready mint now i chunks tables
    document ← get_document i tables'
    ok (document, tables')

  -- `PolicyService.fail_indexing`.
  unfoldable pub fail_indexing :
      ℕ
      → Uuid
      → Text
      → PolicyTables Vector
      → Result PolicyError (PolicyDocument × PolicyTables Vector)
  unfolding mark_failed
  fail_indexing now i code tables = do
    document ← get_document i (mark_failed now i code tables)
    ok (document, mark_failed now i code tables)
