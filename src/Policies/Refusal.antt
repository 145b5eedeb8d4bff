-- ===== src/Policies/Refusal.antt =====
-- When `PolicyService.answer_question` of backend/app/services/policies.py refuses to answer.
use shiftmate_web.Prelude.{
  ℕ, ◌≡◌, ◌↔◌, refl, ◌∙◌, ap, true, false, List, [], ◌∷◌, arith, leb→le, length, map,
}
use shiftmate_web.Prelude.Result.{ok, map_error-eq-ok, >>=-eq-ok}
use shiftmate_web.Prelude.Text.{Text}
use shiftmate_web.Policies.{strip}
use shiftmate_web.Policies.Documents.{PolicyTables}
use shiftmate_web.Policies.Prepare.{Embeddings}
use shiftmate_web.Policies.Answers.{
  PolicyEvidence, Scoring, answerer_failed, qualified, retrieve_evidence, GroundedAnswerer,
  PolicyAnswer, answer_from, answer_question, sources,
}
use shiftmate_web.Policies.Grounded.{retrieve_evidence-IsGrounded}

module _ {Vector Score : Type 0} (scoring : Scoring Vector Score)
    (embeddings : Embeddings Vector) where
  answer_from-refused :
      (answerer : GroundedAnswerer) (question : Text) (evidence : List PolicyEvidence)
      {a : PolicyAnswer}
      → answer_from answerer question evidence ≡ ok a
      → ((a.refused ≡ true) ↔ (length evidence ≡ 0))
        × (a.citations ≡ map (λ e. e.citation) evidence)
        × (a.refused ≡ false → answerer.answer (strip question) (sources 0 evidence) ≡ ok a.answer)
  unfolding answer_from
  answer_from-refused answerer question [] h = ((λ e. refl, λ e. cc), cc, λ e. cc)
  answer_from-refused answerer question (e ∷ evidence) {a} h =
      let (text, answered, h₁) =
        map_error-eq-ok answerer_failed
          (answerer.answer (strip question) (sources 0 (e ∷ evidence))) _ h in
      (
        (λ r. cc, λ r. absurd (omega (arith, r))),
        cc,
        λ r. let same : text ≡ a.answer = cc h₁ in answered ∙ ap (λ t. ok t) same,
      )

  -- An answer is a refusal exactly if no chunk of a ready document reaches the threshold for the
  -- question; it cites exactly the evidence that is retrieved; and if it is no refusal its text is
  -- what the answerer gives for that evidence.
  pub answer_question-refused :
      (answerer : GroundedAnswerer) (question : Text) (top_k : ℕ) (threshold : Score)
      (tables : PolicyTables Vector) {a : PolicyAnswer}
      → answer_question scoring embeddings answerer question top_k threshold tables ≡ ok a
      → (query : Vector) × (evidence : List PolicyEvidence) × (embeddings.embed_query
            (strip question)
          ≡ ok query)
        × (retrieve_evidence scoring embeddings question top_k threshold tables ≡ ok evidence)
        × ((a.refused ≡ true) ↔ (length (qualified scoring threshold query tables) ≡ 0))
        × (a.citations ≡ map (λ e. e.citation) evidence)
        × (a.refused ≡ false → answerer.answer (strip question) (sources 0 evidence) ≡ ok a.answer)
  unfolding answer_question
  answer_question-refused answerer question top_k threshold tables {a} h =
      let (evidence, retrieved, h₁) =
        >>=-eq-ok (retrieve_evidence scoring embeddings question top_k threshold tables) _ h in
      let (query, embedded, amount, positive, grounded) =
        retrieve_evidence-IsGrounded scoring embeddings question top_k threshold tables retrieved in
      let ((there, back), cites, answered) = answer_from-refused answerer question evidence h₁ in
      let least = leb→le 1 top_k positive in
      (
        query,
        evidence,
        embedded,
        retrieved,
        (
          λ r. (let none_there = there r in omega (arith, amount, none_there, least)),
          λ r. (let none_left : length evidence ≡ 0 = omega (arith, amount, r) in back none_left),
        ),
        cites,
        answered,
      )
