-- ===== src/Policies/Answers.antt =====
-- backend/app/services/retrieval.py, and `PolicyService.retrieve_evidence` and `answer_question` of
-- backend/app/services/policies.py.
use shiftmate_web.Prelude.{
  ℕ, zero, suc, ◌+◌, Bool, true, false, not, ◌&&◌, ◌||◌, Option, none, some, List, [], ◌∷◌, leb,
  filter, map, sort_by, if◌then◌else◌,
}
use shiftmate_web.Prelude.Result.{Result, ok, ◌>>=◌, ◌>>◌, raise_if, map_error}
use shiftmate_web.Prelude.Text.{Text, codes, words, join_words}
use shiftmate_web.Database.{Uuid, PolicyDocument, PolicyChunk}
use shiftmate_web.Policies.{take, strip}
use shiftmate_web.Policies.Documents.{PolicyTables, is_ready, find_document}
use shiftmate_web.Policies.Prepare.{EmbeddingError, Embeddings}

-- `PolicyCitation`.
pub record PolicyCitation : Type 0 where
  pub document_id : Uuid
  pub chunk_id : Uuid
  pub title : Text
  pub page_number : ℕ
  pub excerpt : Text

-- `PolicyEvidence`.
pub record PolicyEvidence : Type 0 where
  pub text : Text
  pub citation : PolicyCitation

-- A row of the query.
pub record Ranked (Score : Type 0) : Type 0 where
  pub chunk_id : Uuid
  pub document_id : Uuid
  pub content : Text
  pub page_number : ℕ
  pub title : Text
  pub score : Score

-- The database's `1 - (embedding <=> query)`, the order of scores, and the bounds -1 and 1.
pub record Scoring (Vector Score : Type 0) : Type 0 where
  pub score_of : Vector → Vector → Score
  pub at_least : Score → Score → Bool
  pub in_bounds : Score → Bool

-- The limits that `OwnerScopedPolicyRetriever` checks, and the embeddings' error.
pub data RetrievalError : Type 0 where
  retriever_invalid : RetrievalError
  embedding_failed : EmbeddingError → RetrievalError
  answerer_failed : Text → RetrievalError

abbrev pub take_rows : {A : Type 0} → ℕ → List A → List A
take_rows zero rows = []
take_rows (suc n) [] = []
take_rows (suc n) (r ∷ rows) = r ∷ take_rows n rows

-- `_citation`.
abbrev pub citation : {Score : Type 0} → Ranked Score → PolicyCitation
citation row = record {
  document_id = row.document_id;
  chunk_id = row.chunk_id;
  title = row.title;
  page_number = row.page_number;
  excerpt = take 320 (join_words (words row.content));
}

abbrev pub to_evidence : {Score : Type 0} → Ranked Score → PolicyEvidence
to_evidence row = record { text = row.content; citation = citation row }

module _ {Vector Score : Type 0} (scoring : Scoring Vector Score) where
  -- The row of a chunk of a document, in front of the others where the document is ready.
  abbrev pub join_row :
      Vector
      → PolicyChunk Vector
      → Option PolicyDocument
      → List (Ranked Score)
      → List (Ranked Score)
  join_row query c none rows = rows
  join_row query c (some d) rows =
      let row : Ranked Score = record {
        chunk_id = c.id;
        document_id = c.document_id;
        content = c.content;
        page_number = c.page_number;
        title = d.title;
        score = scoring.score_of c.embedding query;
      } in
      if is_ready d.status then row ∷ rows else rows

  -- The inner query: the chunks of the documents that are ready.
  abbrev pub ranked_rows :
      Vector → PolicyTables Vector → List (PolicyChunk Vector) → List (Ranked Score)
  ranked_rows query tables [] = []
  ranked_rows query tables (c ∷ chunks) =
      join_row query c (find_document c.document_id tables) (ranked_rows query tables chunks)

  -- `ORDER BY ranked.score DESC, ranked.chunk_id`.
  abbrev pub ranked_before : Ranked Score → Ranked Score → Bool
  ranked_before a b =
      not (scoring.at_least b.score a.score)
      || (scoring.at_least a.score b.score && leb a.chunk_id b.chunk_id)

  -- The rows with `ranked.score >= :score_threshold`.
  abbrev pub qualified : Score → Vector → PolicyTables Vector → List (Ranked Score)
  qualified threshold query tables =
      filter (λ row. scoring.at_least row.score threshold) (ranked_rows query tables tables.chunks)

  -- The query.
  unfoldable pub select_evidence : ℕ → Score → Vector → PolicyTables Vector → List (Ranked Score)
  select_evidence top_k threshold query tables =
      take_rows top_k (sort_by ranked_before (qualified threshold query tables))

  module _ (embeddings : Embeddings Vector) where
    -- `PolicyService.retrieve_evidence`.
    unfoldable pub retrieve_evidence :
        Text → ℕ → Score → PolicyTables Vector → Result RetrievalError (List PolicyEvidence)
    unfolding select_evidence
    retrieve_evidence question top_k threshold tables = do
      raise_if (not (leb 1 top_k && leb top_k 10 && scoring.in_bounds threshold)) retriever_invalid
      query ← map_error embedding_failed (embeddings.embed_query (strip question))
      ok (map to_evidence (select_evidence top_k threshold query tables))

-- `GroundedAnswerer`; the number of a source stands for its label "source_{number}".
pub record Source : Type 0 where
  pub number : ℕ
  pub title : Text
  pub page_number : ℕ
  pub text : Text

pub record GroundedAnswerer : Type 0 where
  pub model_name : Text
  pub prompt_version : Text
  pub answer : Text → List Source → Result Text Text

-- `PolicyAnswerResponse`.
pub record PolicyAnswer : Type 0 where
  pub answer : Text
  pub refused : Bool
  pub citations : List PolicyCitation
  pub prompt_version : Text
  pub model_name : Option Text

-- The `evidence` of `answer_question`.
abbrev pub sources : ℕ → List PolicyEvidence → List Source
sources index [] = []
sources index (e ∷ evidence) =
    record {
      number = index + 1;
      title = e.citation.title;
      page_number = e.citation.page_number;
      text = e.text;
    }
    ∷ sources (index + 1) evidence

abbrev pub insufficient : Text
insufficient = codes "上傳的規章中沒有足夠資料可以回答這個問題。"

-- `RAG_PROMPT_VERSION`.
abbrev pub rag_prompt_version : Text
rag_prompt_version = codes "rag_answer_v1"

-- `answer_question`, on its evidence.
unfoldable pub answer_from :
    GroundedAnswerer → Text → List PolicyEvidence → Result RetrievalError PolicyAnswer
answer_from answerer question [] = ok (record {
  answer = insufficient;
  refused = true;
  citations = [];
  prompt_version = rag_prompt_version;
  model_name = none;
})
answer_from answerer question (e ∷ evidence) = do
  answer ← map_error answerer_failed (answerer.answer (strip question) (sources 0 (e ∷ evidence)))
  ok (record {
    answer = answer;
    refused = false;
    citations = map (λ x. x.citation) (e ∷ evidence);
    prompt_version = answerer.prompt_version;
    model_name = some answerer.model_name;
  })

-- `PolicyService.answer_question`.
unfoldable pub answer_question :
    {Vector Score : Type 0}
    → Scoring Vector Score
    → Embeddings Vector
    → GroundedAnswerer
    → Text
    → ℕ
    → Score
    → PolicyTables Vector
    → Result RetrievalError PolicyAnswer
unfolding retrieve_evidence answer_from
answer_question scoring embeddings answerer question top_k threshold tables = do
  evidence ← retrieve_evidence scoring embeddings question top_k threshold tables
  answer_from answerer question evidence
