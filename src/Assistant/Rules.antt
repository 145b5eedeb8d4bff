-- ===== src/Assistant/Rules.antt =====
-- `evaluate_consecutive_days` of backend/app/services/assistant.py: the rules that the evidence states
-- on runs of work days, and whether the schedule keeps them.
use shiftmate_web.Prelude.{
  ℕ, zero, suc, ◌+◌, ◌*◌, ◌-◌, Bool, true, false, ◌&&◌, Option, none, some, List, [], ◌∷◌, ◌++◌,
  ltb, leb, ◌==◌, all, length, if◌then◌else◌,
}
use shiftmate_web.Prelude.Text.{Text, codes, is_space, starts_with}
use shiftmate_web.Domain.Zone.{Date}
use shiftmate_web.Domain.Decimal.{Decimal}
use shiftmate_web.Policies.{drop}
use shiftmate_web.Policies.Answers.{PolicyEvidence}

-- `AssistantScheduleFacts`, without the zone.
pub record AssistantScheduleFacts : Type 0 where
  pub date_from : Date
  pub date_to : Date
  pub currency : Text
  pub shift_count : ℕ
  pub total_paid_hours : Decimal
  pub estimated_pay : Decimal
  pub longest_consecutive_days : ℕ

pub data Outcome : Type 0 where
  compliant non_compliant inconclusive : Outcome

-- `ComplianceEvaluation`.
pub record ComplianceEvaluation : Type 0 where
  pub outcome : Outcome
  pub maximum_consecutive_days : Option ℕ
  pub observed_consecutive_days : ℕ

-- The numerals one to ten.
abbrev pub numerals : Text
numerals = codes "一二三四五六七八九十"

abbrev pub index_from : ℕ → ℕ → Text → Option ℕ
index_from n c [] = none
index_from n c (d ∷ s) = if c == d then some n else index_from (suc n) c s

abbrev pub is_digit : ℕ → Bool
is_digit c = leb 48 c && leb c 57

abbrev pub is_some : Option ℕ → Bool
is_some none = false
is_some (some n) = true

-- `[0-9一二三四五六七八九十]`.
abbrev pub is_number_char : ℕ → Bool
is_number_char c = if is_digit c then true else is_some (index_from 1 c numerals)

abbrev pub number_from : ℕ → Text → ℕ
number_from n [] = n
number_from n (c ∷ s) = number_from (n * 10 + (c - 48)) s

-- `_parse_small_integer`, of a text that is not empty: digits, or one numeral.
abbrev pub parse_small_integer : Text → Option ℕ
parse_small_integer [] = none
parse_small_integer (c ∷ []) = if is_digit c then some (c - 48) else index_from 1 c numerals
parse_small_integer (c ∷ d ∷ s) =
    if all is_digit (c ∷ d ∷ s) then some (number_from 0 (c ∷ d ∷ s)) else none

-- The longest beginning of a text in a class, and what follows it.
abbrev pub span : (ℕ → Bool) → Text → Text × Text
span p [] = ([], [])
span p (c ∷ s) = let (inside, rest) = span p s in if p c then (c ∷ inside, rest) else ([], c ∷ s)

-- `\s*([0-9一二三四五六七八九十]+)\s*天`: the group, and what follows the match.
abbrev pub after_day : Text → Text → Option (Text × Text)
after_day group [] = none
after_day group (c ∷ rest) = if c == 22825 then some (group, rest) else none

abbrev pub with_group : Text × Text → Option (Text × Text)
with_group ([], rest) = none
with_group (c ∷ group, rest) = after_day (c ∷ group) (span is_space rest).1

abbrev pub match_days : Text → Option (Text × Text)
match_days s = with_group (span is_number_char (span is_space s).1)

-- A text behind a beginning.
abbrev pub behind : Text → Text → Option Text
behind start s = if starts_with start s then some (drop (length start) s) else none

abbrev pub or_else : {A : Type 0} → Option A → Option A → Option A
or_else none other = other
or_else (some a) other = some a

abbrev pub and_match : Option Text → Option (Text × Text)
and_match none = none
and_match (some s) = match_days s

-- `不得連續工作(?:超過)?...`.
abbrev pub match_forbidden : Text → Option (Text × Text)
match_forbidden s =
    or_else (and_match (behind (codes "不得連續工作超過") s)) (and_match (behind (codes "不得連續工作") s))

-- `連續工作(?:上限|最多)...`.
abbrev pub match_maximum : Text → Option (Text × Text)
match_maximum s =
    or_else (and_match (behind (codes "連續工作上限") s)) (and_match (behind (codes "連續工作最多") s))

-- `re.finditer`, the groups: the next match begins behind the last one, `skip` characters on.
unfoldable pub find_groups : (Text → Option (Text × Text)) → ℕ → Text → List Text
find_groups match skip [] = []
find_groups match (suc skip) (c ∷ s) = find_groups match skip s
find_groups match zero (c ∷ s) = elim (match (c ∷ s)) [
  | none ↦ find_groups match zero s
  | some (group, rest) ↦ group ∷ find_groups match (length s - length rest) s
]

-- The groups that are numbers.
unfoldable pub parsed : List Text → List ℕ
parsed [] = []
parsed (group ∷ groups) = elim (parse_small_integer group) [
  | none ↦ parsed groups
  | some n ↦ n ∷ parsed groups
]

-- `limits`.
unfoldable pub limits : List PolicyEvidence → List ℕ
unfolding find_groups parsed
limits [] = []
limits (item ∷ evidence) =
    parsed (find_groups match_forbidden 0 item.text)
    ++ parsed (find_groups match_maximum 0 item.text)
    ++ limits evidence

-- `limits[0] if limits and len(set(limits)) == 1 else None`.
abbrev pub only_limit : List ℕ → Option ℕ
only_limit [] = none
only_limit (n ∷ rest) = if all (λ m. m == n) rest then some n else none

abbrev pub judge : Option ℕ → ℕ → ℕ → Outcome
judge none count observed = inconclusive
judge (some maximum) count observed =
    if count == 0 then inconclusive else (if ltb maximum observed then non_compliant else compliant)

-- `evaluate_consecutive_days`.
unfoldable pub evaluate_consecutive_days :
    AssistantScheduleFacts → List PolicyEvidence → ComplianceEvaluation
unfolding limits
evaluate_consecutive_days facts evidence = record {
  outcome = judge (only_limit (limits evidence)) facts.shift_count facts.longest_consecutive_days;
  maximum_consecutive_days = only_limit (limits evidence);
  observed_consecutive_days = facts.longest_consecutive_days;
}
