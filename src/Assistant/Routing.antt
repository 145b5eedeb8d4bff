-- ===== src/Assistant/Routing.antt =====
-- `_normalize_question` and `deterministic_route` of backend/app/services/assistant.py.
use shiftmate_web.Prelude.{Bool, true, false, Option, none, some, List, [], ◌∷◌, any}
use shiftmate_web.Prelude.Text.{Text, codes, words, join_words, contains}
use shiftmate_web.Policies.{strip}

-- `AssistantIntent`.
pub data AssistantIntent : Type 0 where
  schedule_intent policy_intent hybrid_intent unsupported_intent : AssistantIntent

-- `_normalize_question`.
abbrev pub normalize_question : Text → Text
normalize_question question = join_words (words (strip question))

abbrev pub blocked_terms : List Text
blocked_terms =
    codes "raw sql"
    ∷ codes "select "
    ∷ codes "insert "
    ∷ codes "update "
    ∷ codes "delete "
    ∷ codes "刪除班"
    ∷ codes "新增班"
    ∷ codes "修改班"
    ∷ codes "寫入班"
    ∷ []

abbrev pub schedule_terms : List Text
schedule_terms =
    codes "班表"
    ∷ codes "我的班"
    ∷ codes "上班"
    ∷ codes "排班"
    ∷ codes "工時"
    ∷ codes "薪資"
    ∷ codes "薪水"
    ∷ codes "時數"
    ∷ codes "幾班"
    ∷ codes "shift"
    ∷ codes "hours"
    ∷ codes "payroll"
    ∷ []

abbrev pub policy_terms : List Text
policy_terms =
    codes "規章"
    ∷ codes "規定"
    ∷ codes "政策"
    ∷ codes "手冊"
    ∷ codes "休息時間"
    ∷ codes "連續工作"
    ∷ codes "合規"
    ∷ codes "違反"
    ∷ codes "policy"
    ∷ codes "rule"
    ∷ []

abbrev pub other_terms : List Text
other_terms = codes "天氣" ∷ codes "新聞" ∷ codes "股票" ∷ codes "寫入" ∷ codes "刪除班" ∷ []

-- `any(term in lowered for term in terms)`.
abbrev pub mentions : List Text → Text → Bool
mentions terms lowered = any (λ term. contains term lowered) terms

-- The tests of the route in their order.
abbrev pub choose : Bool → Bool → Bool → Bool → Option AssistantIntent
choose true schedule policy other = some unsupported_intent
choose false true true other = some hybrid_intent
choose false true false other = some schedule_intent
choose false false true other = some policy_intent
choose false false false true = some unsupported_intent
choose false false false false = none

-- `deterministic_route`, of a text that is case-folded.
unfoldable pub deterministic_route : Text → Option AssistantIntent
deterministic_route lowered =
    choose (mentions blocked_terms lowered) (mentions schedule_terms lowered)
      (mentions policy_terms lowered) (mentions other_terms lowered)
