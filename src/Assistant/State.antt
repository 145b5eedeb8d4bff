-- ===== src/Assistant/State.antt =====
-- The state of the graph of backend/app/services/assistant.py, its answers and errors, and what the
-- service is given.
use shiftmate_web.Prelude.{ℕ, Bool, true, false, Option, none, some, List, [], ◌∷◌}
use shiftmate_web.Prelude.Result.{Result}
use shiftmate_web.Prelude.Text.{Text}
use shiftmate_web.Domain.Zone.{Date}
use shiftmate_web.Domain.Decimal.{Decimal}
use shiftmate_web.Analytics.{AnalyticsError, AnalyticsSummary}
use shiftmate_web.Policies.Answers.{PolicyCitation, PolicyEvidence}
use shiftmate_web.Assistant.Rules.{
  AssistantScheduleFacts, Outcome, inconclusive, ComplianceEvaluation,
}
use shiftmate_web.Assistant.Routing.{AssistantIntent}

pub data ToolName : Type 0 where
  schedule_summary policy_retrieval rule_evaluator : ToolName

-- `AssistantToolTrace`; the status is "used" or "insufficient".
pub record AssistantToolTrace : Type 0 where
  pub name : ToolName
  pub used : Bool

-- What `query` raises: its own two errors, and those of the services and the model.
pub data AssistantError : Type 0 where
  range_reversed range_too_long : AssistantError
  analytics_failed : AnalyticsError → AssistantError
  loader_failed model_failed : Text → AssistantError

-- The keys of `AssistantState` that the nodes set, `evidence_valid` aside.
pub record AssistantState : Type 0 where
  pub question : Text
  pub intent : AssistantIntent
  pub schedule_facts : Option AssistantScheduleFacts
  pub policy_evidence : List PolicyEvidence
  pub citations : List PolicyCitation
  pub evaluation : Option ComplianceEvaluation
  pub tools : List AssistantToolTrace

-- `AssistantQueryResponse`.
pub record AssistantQueryResponse : Type 0 where
  pub answer : Text
  pub intent : AssistantIntent
  pub refused : Bool
  pub citations : List PolicyCitation
  pub schedule_facts : Option AssistantScheduleFacts
  pub tools : List AssistantToolTrace
  pub prompt_version : Option Text
  pub model_name : Option Text

-- What the service is given: `str.casefold`, how Python prints facts, the loader of evidence, the
-- model that answers and the one that classifies, if there is one.
pub record Assistant : Type 0 where
  pub casefold : Text → Text
  pub show_date : Date → Text
  pub show_number : ℕ → Text
  pub show_decimal : Decimal → Text
  pub load_evidence : Text → Result Text (List PolicyEvidence)
  pub model_name : Text
  pub answer_policy : Text → List PolicyEvidence → Result Text Text
  pub answer_hybrid :
      Text → AssistantScheduleFacts → List PolicyEvidence → ComplianceEvaluation → Result Text Text
  pub classify : Option (Text → Result Text AssistantIntent)

-- `AssistantScheduleFacts.model_validate(summary, from_attributes=True)`.
abbrev pub to_facts : AnalyticsSummary → AssistantScheduleFacts
to_facts s = record {
  date_from = s.date_from;
  date_to = s.date_to;
  currency = s.currency;
  shift_count = s.shift_count;
  total_paid_hours = s.total_paid_hours;
  estimated_pay = s.estimated_pay;
  longest_consecutive_days = s.longest_consecutive_days;
}

abbrev pub is_conclusive : Outcome → Bool
is_conclusive inconclusive = false
is_conclusive _ = true

abbrev pub is_some {ℓ} : {A : Type ℓ} → Option A → Bool
is_some none = false
is_some (some a) = true

abbrev pub is_filled : List PolicyEvidence → Bool
is_filled [] = false
is_filled (e ∷ evidence) = true

abbrev pub trace : ToolName → Bool → AssistantToolTrace
trace name used = record { name = name; used = used }

abbrev pub start : Text → AssistantIntent → AssistantState
start question intent = record {
  question = question;
  intent = intent;
  schedule_facts = none;
  policy_evidence = [];
  citations = [];
  evaluation = none;
  tools = [];
}
