-- ===== src/Assistant.antt =====
-- The workflow of backend/app/services/assistant.py: its nodes, each a function on the state of the
-- graph, and their order.
pub mod Rules
pub mod Routing
pub mod State
pub mod Judged
pub mod Supported
mod Tests
use shiftmate_web.Prelude.{
  ℕ, ◌-◌, Bool, true, false, not, Option, none, some, List, [], ◌∷◌, ◌++◌, ltb, map, if◌then◌else◌,
}
use shiftmate_web.Prelude.Result.{Result, ok, raise, ◌>>=◌, ◌>>◌, raise_if, map_error}
use shiftmate_web.Prelude.Text.{Text, codes}
use shiftmate_web.Domain.Zone.{Date, Zones}
use shiftmate_web.Domain.Decimal.{Decimal}
use shiftmate_web.Database.{Db}
use shiftmate_web.Analytics.{AnalyticsError, AnalyticsSummary, get_summary}
use shiftmate_web.Policies.Answers.{
  PolicyCitation, PolicyEvidence, insufficient, rag_prompt_version,
}
use shiftmate_web.Assistant.Rules.{
  AssistantScheduleFacts, Outcome, compliant, non_compliant, inconclusive, ComplianceEvaluation,
  evaluate_consecutive_days,
}
use shiftmate_web.Assistant.Routing.{
  AssistantIntent, schedule_intent, policy_intent, hybrid_intent, unsupported_intent,
  normalize_question, deterministic_route,
}
use shiftmate_web.Assistant.State.{
  Assistant, AssistantError, AssistantQueryResponse, AssistantState, AssistantToolTrace, ToolName,
  analytics_failed, is_conclusive, is_filled, is_some, loader_failed, model_failed,
  policy_retrieval, range_reversed, range_too_long, rule_evaluator, schedule_summary, start,
  to_facts, trace,
}

-- `_validate_evidence`.
unfoldable pub evidence_valid : AssistantState → Bool
evidence_valid s = elim s.intent [
  | unsupported_intent ↦ false
  | schedule_intent ↦ is_some s.schedule_facts
  | policy_intent ↦ is_filled s.policy_evidence
  | hybrid_intent ↦ elim s.schedule_facts [
    | none ↦ false
    | some facts ↦ elim (is_filled s.policy_evidence) [
      | false ↦ false
      | true ↦ elim s.evaluation [ none ↦ false | some e ↦ is_conclusive e.outcome ]
    ]
  ]
]

-- The texts of `_compose_answer` for evidence that is not enough.
abbrev pub refusal_text : AssistantIntent → Text
refusal_text policy_intent = insufficient
refusal_text hybrid_intent = codes "資料不足，無法判定是否符合規章；需要該期間班表、" ++ codes "可引用的規章與可解析的規則。"
refusal_text schedule_intent = codes "目前沒有足夠的班表資料可以回答這個問題。"
refusal_text unsupported_intent = codes "我目前只能回答班表、工時、預估薪資與已上傳規章相關問題。"

abbrev pub respond :
    AssistantState → Text → Bool → Option Text → Option Text → AssistantQueryResponse
respond s answer refused prompt_version model_name = record {
  answer = answer;
  intent = s.intent;
  refused = refused;
  citations = s.citations;
  schedule_facts = s.schedule_facts;
  tools = s.tools;
  prompt_version = prompt_version;
  model_name = model_name;
}

abbrev pub hybrid_prompt_version : Text
hybrid_prompt_version = codes "hybrid_compliance_v1"

module _ (zones : Zones) (assistant : Assistant) (date_from date_to : Date) (db : Db) where
  -- `_route_intent`.
  unfoldable pub route_intent : Text → Result AssistantError AssistantIntent
  route_intent question = elim (deterministic_route (assistant.casefold question)) [
    | some intent ↦ ok intent
    | none ↦ elim assistant.classify [
      | none ↦ ok unsupported_intent
      | some classify ↦ map_error model_failed (classify question)
    ]
  ]

  -- `_load_schedule_facts`.
  unfoldable pub load_facts : Result AssistantError AssistantScheduleFacts
  load_facts = do
    summary ← map_error analytics_failed (get_summary zones date_from date_to db)
    ok (to_facts summary)

  -- The node of an intent: `_schedule_query`, `_policy_query`, `_hybrid_query`, `_unsupported`.
  unfoldable pub gather : Text → AssistantIntent → Result AssistantError AssistantState
  unfolding load_facts
  gather question schedule_intent = do
    facts ← load_facts
    ok (record (start question schedule_intent) {
      schedule_facts = some facts;
      tools = trace schedule_summary true ∷ [];
    })
  gather question policy_intent = do
    evidence ← map_error loader_failed (assistant.load_evidence question)
    ok (record (start question policy_intent) {
      policy_evidence = evidence;
      citations = map (λ e. e.citation) evidence;
      tools = trace policy_retrieval (is_filled evidence) ∷ [];
    })
  gather question hybrid_intent = do
    facts ← load_facts
    evidence ← map_error loader_failed (assistant.load_evidence question)
    ok (record (start question hybrid_intent) {
      schedule_facts = some facts;
      policy_evidence = evidence;
      citations = map (λ e. e.citation) evidence;
      evaluation = some (evaluate_consecutive_days facts evidence);
      tools =
          trace schedule_summary true
          ∷ trace policy_retrieval (is_filled evidence)
          ∷ trace rule_evaluator (is_conclusive (evaluate_consecutive_days facts evidence).outcome)
          ∷ [];
    })
  gather question unsupported_intent = ok (start question unsupported_intent)

  -- The answer to a schedule question.
  abbrev pub schedule_answer : AssistantScheduleFacts → Text
  schedule_answer facts =
      assistant.show_date facts.date_from
      ++ codes " 至 "
      ++ assistant.show_date facts.date_to
      ++ codes " 共 "
      ++ assistant.show_number facts.shift_count
      ++ codes " 班，總工時 "
      ++ assistant.show_decimal facts.total_paid_hours
      ++ codes " 小時，預估薪資 "
      ++ facts.currency
      ++ codes " "
      ++ assistant.show_decimal facts.estimated_pay
      ++ codes "；最長連續工作 "
      ++ assistant.show_number facts.longest_consecutive_days
      ++ codes " 天。"

  -- `_compose_answer` where the evidence is valid.
  unfoldable pub compose_valid :
      AssistantState
      → AssistantIntent
      → Option AssistantScheduleFacts
      → Option ComplianceEvaluation
      → Result AssistantError AssistantQueryResponse
  compose_valid s schedule_intent (some facts) evaluation =
      ok (respond s (schedule_answer facts) false none none)
  compose_valid s policy_intent facts evaluation = do
    answer ← map_error model_failed (assistant.answer_policy s.question s.policy_evidence)
    ok (respond s answer false (some rag_prompt_version) (some assistant.model_name))
  compose_valid s hybrid_intent (some facts) (some evaluation) = do
    answer ←
        map_error model_failed
          (assistant.answer_hybrid s.question facts s.policy_evidence evaluation)
    ok (respond s answer false (some hybrid_prompt_version) (some assistant.model_name))
  compose_valid s intent facts evaluation = ok (respond s (refusal_text intent) true none none)

  -- `_compose_answer`.
  unfoldable pub compose_answer : AssistantState → Result AssistantError AssistantQueryResponse
  unfolding compose_valid evidence_valid
  compose_answer s = elim (evidence_valid s) [
    | true ↦ compose_valid s s.intent s.schedule_facts s.evaluation
    | false ↦ ok (respond s (refusal_text s.intent) true none none)
  ]

  -- `AssistantService.query`, the graph unrolled.
  unfoldable pub query : Text → Result AssistantError AssistantQueryResponse
  unfolding route_intent gather compose_answer
  query question = do
    raise_if (ltb date_to date_from) range_reversed
    raise_if (ltb 365 (date_to - date_from)) range_too_long
    intent ← route_intent (normalize_question question)
    state ← gather (normalize_question question) intent
    compose_answer state
