-- ===== src/Assistant/Supported.antt =====
-- What an answer of `AssistantService.query`, backend/app/services/assistant.py, rests on.
use shiftmate_web.Prelude.{
  ◌-◌, ◌≡◌, ◌↔◌, refl, sym, subst, ◌∙◌, ap, true, false, some, List, [], ◌∷◌, ltb, map, Bool-cases,
  inl, inr,
}
use shiftmate_web.Prelude.Result.{Result, ok, raise_if-eq-ok, map_error-eq-ok, >>=-eq-ok}
use shiftmate_web.Prelude.Text.{Text}
use shiftmate_web.Domain.Zone.{Date, Zones}
use shiftmate_web.Database.{Db}
use shiftmate_web.Analytics.{AnalyticsSummary, get_summary}
use shiftmate_web.Policies.Answers.{PolicyEvidence}
use shiftmate_web.Assistant.Rules.{AssistantScheduleFacts, evaluate_consecutive_days}
use shiftmate_web.Assistant.Routing.{
  AssistantIntent, schedule_intent, policy_intent, hybrid_intent, unsupported_intent,
  normalize_question,
}
use shiftmate_web.Assistant.{
  evidence_valid, route_intent, load_facts, gather, compose_valid, compose_answer, query,
  schedule_answer,
}
use shiftmate_web.Assistant.State.{
  AssistantError, range_reversed, range_too_long, analytics_failed, loader_failed, model_failed,
  AssistantState, AssistantQueryResponse, Assistant, to_facts, start, trace, schedule_summary,
  policy_retrieval, rule_evaluator, is_conclusive, is_filled,
}

ok_value : {A : Type 0} {a b : A} {r : Result AssistantError A} → r ≡ ok a → r ≡ ok b → a ≡ b
ok_value h k = cc

module _ (zones : Zones) (assistant : Assistant) (date_from date_to : Date) (db : Db) where
  -- The response to a question of an intent, by what it rests on.
  abbrev pub IsSupported : Text → AssistantIntent → AssistantQueryResponse → Type 0
  IsSupported question schedule_intent r =
      (summary : AnalyticsSummary) × (get_summary zones date_from date_to db ≡ ok summary)
      × (r.refused ≡ false)
      × (r.schedule_facts ≡ some (to_facts summary))
      × (r.answer ≡ schedule_answer zones assistant date_from date_to db (to_facts summary))
  IsSupported question policy_intent r =
      (evidence : List PolicyEvidence) × (assistant.load_evidence question ≡ ok evidence)
      × (r.citations ≡ map (λ e. e.citation) evidence)
      × ((r.refused ≡ false) ↔ (is_filled evidence ≡ true))
      × (r.refused ≡ false → assistant.answer_policy question evidence ≡ ok r.answer)
  IsSupported question hybrid_intent r =
      (summary : AnalyticsSummary) × (evidence : List PolicyEvidence) × (get_summary zones date_from
          date_to db
        ≡ ok summary)
      × (assistant.load_evidence question ≡ ok evidence)
      × (r.citations ≡ map (λ e. e.citation) evidence)
      × ((r.refused ≡ false) ↔ (
          (is_filled evidence ≡ true)
          × (is_conclusive (evaluate_consecutive_days (to_facts summary) evidence).outcome ≡ true)))
      × (r.refused ≡ false
          → assistant.answer_hybrid question (to_facts summary) evidence
              (evaluate_consecutive_days (to_facts summary) evidence)
            ≡ ok r.answer)
  IsSupported question unsupported_intent r = r.refused ≡ true

  -- The states that the nodes leave.
  abbrev policy_state : Text → List PolicyEvidence → AssistantState
  policy_state question evidence = record (start question policy_intent) {
    policy_evidence = evidence;
    citations = map (λ e. e.citation) evidence;
    tools = trace policy_retrieval (is_filled evidence) ∷ [];
  }

  abbrev hybrid_state : Text → AssistantScheduleFacts → List PolicyEvidence → AssistantState
  hybrid_state question facts evidence = record (start question hybrid_intent) {
    schedule_facts = some facts;
    policy_evidence = evidence;
    citations = map (λ e. e.citation) evidence;
    evaluation = some (evaluate_consecutive_days facts evidence);
    tools =
        trace schedule_summary true
        ∷ trace policy_retrieval (is_filled evidence)
        ∷ trace rule_evaluator (is_conclusive (evaluate_consecutive_days facts evidence).outcome)
        ∷ [];
  }

  load_facts-summary :
      {facts : AssistantScheduleFacts}
      → load_facts zones assistant date_from date_to db ≡ ok facts
      → (summary : AnalyticsSummary) × (get_summary zones date_from date_to db ≡ ok summary)
        × (to_facts summary ≡ facts)
  unfolding load_facts
  load_facts-summary h =
      let (summary, got, h₁) =
        map_error-eq-ok analytics_failed (get_summary zones date_from date_to db) _ h in
      (summary, got, cc h₁)

  compose_policy :
      (question : Text) (evidence : List PolicyEvidence) {r : AssistantQueryResponse}
      → compose_answer zones assistant date_from date_to db (policy_state question evidence) ≡ ok r
      → (r.citations ≡ map (λ e. e.citation) evidence)
        × ((r.refused ≡ false) ↔ (is_filled evidence ≡ true))
        × (r.refused ≡ false → assistant.answer_policy question evidence ≡ ok r.answer)
  unfolding compose_answer evidence_valid compose_valid
  compose_policy question [] h = (cc, (λ e. cc, λ e. cc), λ e. cc)
  compose_policy question (e ∷ evidence) {r} h =
      let (text, answered, h₁) =
        map_error-eq-ok model_failed (assistant.answer_policy question (e ∷ evidence)) _ h in
      let same : text ≡ r.answer = cc h₁ in
      (cc, (λ x. refl, λ x. cc), λ x. answered ∙ ap (λ t. ok t) same)

  compose_hybrid :
      (question : Text) (facts : AssistantScheduleFacts) (evidence : List PolicyEvidence)
      {r : AssistantQueryResponse}
      → compose_answer zones assistant date_from date_to db (hybrid_state question facts evidence)
        ≡ ok r
      → (r.citations ≡ map (λ e. e.citation) evidence)
        × ((r.refused ≡ false) ↔ (
            (is_filled evidence ≡ true)
            × (is_conclusive (evaluate_consecutive_days facts evidence).outcome ≡ true)))
        × (r.refused ≡ false
            → assistant.answer_hybrid question facts evidence
                (evaluate_consecutive_days facts evidence)
              ≡ ok r.answer)
  unfolding compose_answer evidence_valid compose_valid
  compose_hybrid question facts [] h = (cc, (λ e. cc, λ e. cc), λ e. cc)
  compose_hybrid question facts (e ∷ evidence) {r} h =
      let evaluation = evaluate_consecutive_days facts (e ∷ evidence) in
      elim (Bool-cases (is_conclusive evaluation.outcome)) [
        | inr vague ↦
            let h' = rw (compose_answer, evidence_valid, vague) at h in
            (
              cc h',
              (λ x. absurd (cc (h', x)), λ x. absurd (cc (vague, x.1))),
              λ x. absurd (cc (h', x)),
            )
        | inl closed ↦
            let h' = rw (compose_answer, evidence_valid, closed) at h in
            let (text, answered, h₁) =
              map_error-eq-ok model_failed
                (assistant.answer_hybrid question facts (e ∷ evidence) evaluation) _ h' in
            let same : text ≡ r.answer = cc h₁ in
            (cc h₁, (λ x. (refl, closed), λ x. cc h₁), λ x. answered ∙ ap (λ t. ok t) same)
      ]

  answer-IsSupported :
      (question : Text) (intent : AssistantIntent) {s : AssistantState} {r : AssistantQueryResponse}
      → gather zones assistant date_from date_to db question intent ≡ ok s
      → compose_answer zones assistant date_from date_to db s ≡ ok r
      → IsSupported question intent r
  unfolding gather compose_answer evidence_valid compose_valid
  answer-IsSupported question schedule_intent {s} {r} gathered composed =
      let (facts, loaded, h₁) =
        >>=-eq-ok (load_facts zones assistant date_from date_to db) _ gathered in
      let (summary, got, same) = load_facts-summary loaded in
      let composed' =
        subst (λ x. compose_answer zones assistant date_from date_to db x ≡ ok r)
          (sym (ok_value refl h₁)) composed in
      (summary, got, cc composed', cc (composed', same), cc (composed', same))
  answer-IsSupported question policy_intent {s} {r} gathered composed =
      let (evidence, loaded, h₁) =
        map_error-eq-ok loader_failed (assistant.load_evidence question) _ gathered in
      let composed' =
        subst (λ x. compose_answer zones assistant date_from date_to db x ≡ ok r)
          (sym (ok_value refl h₁)) composed in
      let (cites, sound, answered) = compose_policy question evidence composed' in
      (evidence, loaded, cites, sound, answered)
  answer-IsSupported question hybrid_intent {s} {r} gathered composed =
      let (facts, found, h₀) =
        >>=-eq-ok (load_facts zones assistant date_from date_to db) _ gathered in
      let (summary, got, same) = load_facts-summary found in
      let (evidence, loaded, h₁) =
        map_error-eq-ok loader_failed (assistant.load_evidence question) _ h₀ in
      let left : hybrid_state question (to_facts summary) evidence ≡ s =
        rw same (ok_value refl h₁) in
      let composed' =
        subst (λ x. compose_answer zones assistant date_from date_to db x ≡ ok r) (sym left)
          composed in
      let (cites, sound, answered) =
        compose_hybrid question (to_facts summary) evidence composed' in
      (summary, evidence, got, loaded, cites, sound, answered)
  answer-IsSupported question unsupported_intent {s} {r} gathered composed =
      let composed' =
        subst (λ x. compose_answer zones assistant date_from date_to db x ≡ ok r)
          (sym (ok_value refl gathered)) composed in
      cc composed'

  -- A response rests on what its intent asks for. One to a schedule question is never a refusal, and
  -- states the facts of the summary of the range. One to a policy question is a refusal exactly if
  -- there is no evidence, and otherwise the model's answer from the evidence, which it cites. One to a
  -- question on both is a refusal exactly if there is no evidence or the rules decide nothing, and
  -- otherwise the model's answer from the facts, the evidence and the evaluation. To any other
  -- question it is a refusal.
  pub query-IsSupported :
      (question : Text) {r : AssistantQueryResponse}
      → query zones assistant date_from date_to db question ≡ ok r
      → (intent : AssistantIntent) × (route_intent zones assistant date_from date_to db
            (normalize_question question)
          ≡ ok intent)
        × IsSupported (normalize_question question) intent r
  unfolding query
  query-IsSupported question {r} h =
      let (forward, h₁) = raise_if-eq-ok (ltb date_to date_from) range_reversed _ h in
      let (short, h₂) = raise_if-eq-ok (ltb 365 (date_to - date_from)) range_too_long _ h₁ in
      let (intent, routed, h₃) =
        >>=-eq-ok (route_intent zones assistant date_from date_to db (normalize_question question))
          _ h₂ in
      let (s, gathered, composed) =
        >>=-eq-ok (gather zones assistant date_from date_to db (normalize_question question) intent)
          _ h₃ in
      (intent, routed, answer-IsSupported (normalize_question question) intent gathered composed)
