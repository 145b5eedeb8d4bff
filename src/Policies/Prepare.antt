-- ===== src/Policies/Prepare.antt =====
-- `PolicyService.prepare_chunks` of backend/app/services/policies.py: the chunks of an upload with their
-- embeddings.
use shiftmate_web.Prelude.{ℕ, not, ◌||◌, List, [], ◌∷◌, ◌==◌, any, map, length}
use shiftmate_web.Prelude.Result.{Result, ok, ◌>>=◌, ◌>>◌, raise_if, map_error}
use shiftmate_web.Prelude.Text.{Text}
use shiftmate_web.Policies.Extract.{extract_policy_pages}
use shiftmate_web.Policies.{TextChunk, chunk_policy_pages}
use shiftmate_web.Policies.Documents.{
  NewPolicyChunk, PolicyUploadInfo, PolicyError, gemini_invalid_response, extract_refused,
  text_refused, gemini_failed,
}

abbrev pub max_chars : ℕ
max_chars = 1200

abbrev pub overlap : ℕ
overlap = 180

abbrev pub embedding_dimensions : ℕ
embedding_dimensions = 768

-- `zip(text_chunks, vectors, strict=True)`, for lists of one length.
abbrev pub zip_chunks :
    {Vector : Type 0} → List TextChunk → List Vector → List (NewPolicyChunk Vector)
zip_chunks [] vectors = []
zip_chunks (c ∷ chunks) [] = []
zip_chunks (c ∷ chunks) (v ∷ vectors) =
    record {
      content = c.content;
      page_number = c.page_number;
      chunk_index = c.chunk_index;
      embedding = v;
    }
    ∷ zip_chunks chunks vectors

abbrev pub contents : List TextChunk → List Text
contents chunks = map (λ c. c.content) chunks

-- The exceptions of `Embeddings`: `GeminiRagError`, and `QuotaExceededError`, which the call of
-- `before_request` raises in front of each request.
pub data EmbeddingError : Type 0 where
  gemini_error quota_exceeded : Text → EmbeddingError

-- The code that both have.
abbrev pub embedding_code : EmbeddingError → Text
embedding_code (gemini_error code) = code
embedding_code (quota_exceeded code) = code

-- How a preparation fails: with one of the errors that an upload stores, or over the quota.
pub data PrepareError : Type 0 where
  refused : PolicyError → PrepareError
  over_quota : Text → PrepareError

abbrev pub embedding_refused : EmbeddingError → PrepareError
embedding_refused (gemini_error code) = refused (gemini_failed code)
embedding_refused (quota_exceeded code) = over_quota code

-- What `Embeddings` gives; a vector has a number of dimensions.
pub record Embeddings (Vector : Type 0) : Type 0 where
  pub dimensions : Vector → ℕ
  pub embed_documents : List Text → Result EmbeddingError (List Vector)
  pub embed_query : Text → Result EmbeddingError Vector

-- `PolicyService.prepare_chunks`.
unfoldable pub prepare_chunks :
    {Vector : Type 0}
    → Embeddings Vector
    → PolicyUploadInfo
    → Result PrepareError (List (NewPolicyChunk Vector))
prepare_chunks embeddings upload = do
  pages ← map_error (λ e. refused (extract_refused e)) (extract_policy_pages upload.source)
  text_chunks ←
      map_error (λ e. refused (text_refused e)) (chunk_policy_pages max_chars overlap pages)
  vectors ← map_error embedding_refused (embeddings.embed_documents (contents text_chunks))
  raise_if
      (not (length vectors == length text_chunks)
        || any (λ v. not (embeddings.dimensions v == embedding_dimensions)) vectors)
      (refused gemini_invalid_response)
  ok (zip_chunks text_chunks vectors)
