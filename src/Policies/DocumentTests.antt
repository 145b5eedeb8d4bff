-- ===== src/Policies/DocumentTests.antt =====
-- The theorems on the documents and answers of backend/app/services/policies.py at concrete inputs.
use shiftmate_web.Prelude.{
  ℕ, ◌+◌, ◌≡◌, ◌↔◌, refl, min, true, false, none, some, List, [], ◌∷◌, leb, length, All, map,
}
use shiftmate_web.Prelude.Result.{ok}
use shiftmate_web.Prelude.Text.{codes}
use shiftmate_web.Database.{Uuid, indexing, ready, PolicyDocument, PolicyChunk}
use shiftmate_web.Policies.{strip}
use shiftmate_web.Policies.Documents.{
  PolicyTables, PolicyUploadInfo, create_draft, create_or_get_document,
}
use shiftmate_web.Policies.Prepare.{Embeddings}
use shiftmate_web.Policies.Uploads.{ValidatedUpload}
use shiftmate_web.Policies.Answers.{
  PolicyEvidence, PolicyAnswer, Scoring, GroundedAnswerer, qualified, select_evidence,
  retrieve_evidence, answer_from, answer_question, sources,
}
use shiftmate_web.Policies.Grounded.{IsGrounded, retrieve_evidence-IsGrounded}
use shiftmate_web.Policies.Refusal.{answer_question-refused}

-- A vector is a number, and its score that number.
abbrev embeddings : Embeddings ℕ
embeddings = record {
  dimensions = λ v. 768;
  embed_documents = λ texts. ok (map (λ t. 7) texts);
  embed_query = λ question. ok 3;
}

abbrev scoring : Scoring ℕ ℕ
scoring = record { score_of = λ v query. v; at_least = λ a b. leb b a; in_bounds = λ s. true }

abbrev policy : PolicyDocument
policy = record {
  id = 1;
  title = codes "Handbook";
  filename = codes "handbook.pdf";
  sha256 = codes "aa";
  status = ready;
  page_count = 1;
  error_code = none;
  created_at = 1;
  updated_at = 1;
}

abbrev piece : Uuid → ℕ → PolicyChunk ℕ
piece i score = record {
  id = i;
  document_id = 1;
  content = codes "Breaks are paid.";
  page_number = 1;
  chunk_index = i;
  embedding = score;
}

abbrev tables : PolicyTables ℕ
tables = record { documents = policy ∷ []; chunks = piece 10 2 ∷ piece 11 6 ∷ piece 12 9 ∷ [] }

abbrev pdf : ValidatedUpload
pdf = record {
  media_type = codes "application/pdf";
  page_count = some 1;
  filename = codes "rules.pdf";
  sha256 = codes "bb";
  source = some (codes "Swaps  need a manager.\r\n" ∷ []);
}

abbrev upload : PolicyUploadInfo
upload = record {
  source = some (codes "Swaps  need a manager.\r\n" ∷ []);
  title = codes "Rules";
  filename = codes "rules.pdf";
  sha256 = codes "bb";
  page_count = 1;
}

abbrev draft : PolicyDocument
draft = record policy {
  id = 2;
  title = codes "Rules";
  filename = codes "rules.pdf";
  sha256 = codes "bb";
  status = indexing;
  created_at = 5;
  updated_at = 5;
}

drafted : (create_draft 2 5 upload tables).1.documents ≡ draft ∷ policy ∷ []
unfolding create_draft create_or_get_document
drafted = refl

abbrev mint : ℕ → Uuid
mint index = 100 + index

-- Another request deletes the other document while this one is prepared.
abbrev only_new : PolicyTables ℕ → PolicyTables ℕ
only_new t = record { documents = draft ∷ []; chunks = [] }

abbrev evidence : List PolicyEvidence
evidence = cited 12 ∷ cited 11 ∷ []
  where
    cited : Uuid → PolicyEvidence
    cited i = record {
      text = codes "Breaks are paid.";
      citation = record {
        document_id = 1;
        chunk_id = i;
        title = codes "Handbook";
        page_number = 1;
        excerpt = codes "Breaks are paid.";
      };
    }

retrieved : retrieve_evidence scoring embeddings (codes "Are breaks paid?") 5 6 tables ≡ ok evidence
unfolding retrieve_evidence select_evidence
retrieved = refl

retrieve_evidence-IsGrounded_example :
    (query : ℕ) × (embeddings.embed_query (strip (codes "Are breaks paid?")) ≡ ok query)
    × (length evidence ≡ min 5 (length (qualified scoring 6 query tables)))
    × (leb 1 5 ≡ true)
    × All (IsGrounded scoring query 6 tables) evidence
retrieve_evidence-IsGrounded_example =
    retrieve_evidence-IsGrounded scoring embeddings (codes "Are breaks paid?") 5 6 tables retrieved

abbrev answerer : GroundedAnswerer
answerer = record {
  model_name = codes "model";
  prompt_version = codes "1";
  answer = λ question given. ok (codes "Yes");
}

abbrev answer : PolicyAnswer
answer = record {
  answer = codes "Yes";
  refused = false;
  citations = map (λ e. e.citation) evidence;
  prompt_version = codes "1";
  model_name = some (codes "model");
}

answered :
    answer_question scoring embeddings answerer (codes "Are breaks paid?") 5 6 tables ≡ ok answer
unfolding answer_question retrieve_evidence select_evidence answer_from
answered = refl

answer_question-refused_example :
    (query : ℕ) × (found : List PolicyEvidence) × (embeddings.embed_query
        (strip (codes "Are breaks paid?"))
      ≡ ok query)
    × (retrieve_evidence scoring embeddings (codes "Are breaks paid?") 5 6 tables ≡ ok found)
    × ((false ≡ true) ↔ (length (qualified scoring 6 query tables) ≡ 0))
    × (map (λ e. e.citation) evidence ≡ map (λ e. e.citation) found)
    × (false ≡ false
        → answerer.answer (strip (codes "Are breaks paid?")) (sources 0 found) ≡ ok (codes "Yes"))
answer_question-refused_example =
    answer_question-refused scoring embeddings answerer (codes "Are breaks paid?") 5 6 tables
      answered
