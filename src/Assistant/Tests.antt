-- ===== src/Assistant/Tests.antt =====
-- The theorems on backend/app/services/assistant.py at concrete inputs.
use shiftmate_web.Prelude.{ℕ, ◌≡◌, ◌≤◌, ◌<◌, ◌↔◌, refl, true, false, none, some, [], ◌∷◌}
use shiftmate_web.Prelude.Result.{ok}
use shiftmate_web.Prelude.Text.{codes}
use shiftmate_web.Policies.Answers.{PolicyEvidence}
use shiftmate_web.Assistant.Rules.{
  AssistantScheduleFacts, compliant, non_compliant, limits, find_groups, parsed,
  evaluate_consecutive_days,
}
use shiftmate_web.Assistant.Routing.{
  AssistantIntent, policy_intent, deterministic_route, normalize_question,
}
use shiftmate_web.Assistant.{
  route_intent, query, gather, compose_answer, compose_valid, evidence_valid,
}
use shiftmate_web.Assistant.State.{Assistant, AssistantQueryResponse, trace, policy_retrieval}
use shiftmate_web.Assistant.Judged.{IsLimit, evaluate_consecutive_days_iff}
use shiftmate_web.Assistant.Supported.{IsSupported, query-IsSupported}
use shiftmate_web.Examples.{utc, db}

abbrev rule : PolicyEvidence
rule = record {
  text = codes "員工不得連續工作超過 6 天；連續工作上限六天。";
  citation = record {
    document_id = 1;
    chunk_id = 10;
    title = codes "手冊";
    page_number = 2;
    excerpt = codes "不得連續工作超過 6 天";
  };
}

six_twice : limits (rule ∷ []) ≡ 6 ∷ 6 ∷ []
unfolding limits find_groups parsed
six_twice = refl

abbrev facts : AssistantScheduleFacts
facts = record {
  date_from = 1;
  date_to = 9;
  currency = codes "TWD";
  shift_count = 7;
  total_paid_hours = record { coefficient = 49; scale = 0 };
  estimated_pay = record { coefficient = 9800; scale = 0 };
  longest_consecutive_days = 7;
}

seven_beyond : (evaluate_consecutive_days facts (rule ∷ [])).outcome ≡ non_compliant
unfolding evaluate_consecutive_days limits find_groups parsed
seven_beyond = refl

evaluate_consecutive_days_iff_example :
    (((evaluate_consecutive_days facts (rule ∷ [])).outcome ≡ compliant)
      ↔ ((m : ℕ) × IsLimit m (limits (rule ∷ [])) × (0 < 7) × (7 ≤ m)))
    × (((evaluate_consecutive_days facts (rule ∷ [])).outcome ≡ non_compliant)
        ↔ ((m : ℕ) × IsLimit m (limits (rule ∷ [])) × (0 < 7) × (m < 7)))
evaluate_consecutive_days_iff_example = evaluate_consecutive_days_iff facts (rule ∷ [])

-- An assistant whose model repeats the question.
abbrev assistant : Assistant
assistant = record {
  casefold = λ s. s;
  show_date = λ d. codes "2026-09-02";
  show_number = λ n. codes "7";
  show_decimal = λ d. codes "1.00";
  load_evidence = λ question. ok (rule ∷ []);
  model_name = codes "model";
  answer_policy = λ question evidence. ok question;
  answer_hybrid = λ question known evidence evaluation. ok question;
  classify = none;
}

abbrev response : AssistantQueryResponse
response = record {
  answer = codes "規章 是什麼";
  intent = policy_intent;
  refused = false;
  citations = rule.citation ∷ [];
  schedule_facts = none;
  tools = trace policy_retrieval true ∷ [];
  prompt_version = some (codes "rag_answer_v1");
  model_name = some (codes "model");
}

asked : query utc assistant 1 9 db (codes "  規章 是什麼 ") ≡ ok response
unfolding query route_intent deterministic_route gather compose_answer compose_valid evidence_valid
asked = refl

query-IsSupported_example :
    (intent : AssistantIntent) × (route_intent utc assistant 1 9 db
        (normalize_question (codes "  規章 是什麼 "))
      ≡ ok intent)
    × IsSupported utc assistant 1 9 db (normalize_question (codes "  規章 是什麼 ")) intent response
query-IsSupported_example = query-IsSupported utc assistant 1 9 db (codes "  規章 是什麼 ") asked
