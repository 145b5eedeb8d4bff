-- ===== src/Assistant/Judged.antt =====
-- When `evaluate_consecutive_days` of backend/app/services/assistant.py calls a schedule compliant.
use shiftmate_web.Prelude.{
  ℕ, ◌≤◌, ◌<◌, ◌≡◌, ◌↔◌, refl, subst, true, Option, none, some, List, [], ◌∷◌, arith, ◌==◌, ==_iff,
  all, length, All, Bool-cases, inl, inr,
}
use shiftmate_web.Policies.Answers.{PolicyEvidence}
use shiftmate_web.Assistant.Rules.{
  AssistantScheduleFacts, compliant, non_compliant, limits, only_limit, judge,
  evaluate_consecutive_days,
}

-- The evidence states limits, and each is this one.
pub record IsLimit (maximum : ℕ) (xs : List ℕ) : Type 0 where
  pub stated : 0 < length xs
  pub agreed : All (λ x. x ≡ maximum) xs

all-All : (n : ℕ) (xs : List ℕ) → all (λ m. m == n) xs ≡ true → All (λ x. x ≡ n) xs
all-All n [] h = tt
all-All n (x ∷ xs) h =
    let here : (x == n) ≡ true = ground arith in
    let later : all (λ m. m == n) xs ≡ true = ground arith in
    ((==_iff x n).0 here, all-All n xs later)

All-all : (n : ℕ) (xs : List ℕ) → All (λ x. x ≡ n) xs → all (λ m. m == n) xs ≡ true
All-all n [] a = refl
All-all n (x ∷ xs) a = let here : (x == n) ≡ true = (==_iff x n).1 a.0 in rw here (All-all n xs a.1)

only_limit-IsLimit : (xs : List ℕ) (m : ℕ) → only_limit xs ≡ some m → IsLimit m xs
only_limit-IsLimit [] m h = cc
only_limit-IsLimit (n ∷ rest) m h = elim (Bool-cases (all (λ x. x == n) rest)) [
  | inr differ ↦ absurd (let h' = rw differ at h in cc h')
  | inl agree ↦
      let h' = rw agree at h in
      let same : n ≡ m = cc h' in
      record {
        stated = omega arith;
        agreed = subst (λ k. All (λ x. x ≡ k) (n ∷ rest)) same (refl, all-All n rest agree);
      }
]

IsLimit-only_limit : (xs : List ℕ) (m : ℕ) → IsLimit m xs → only_limit xs ≡ some m
IsLimit-only_limit [] m limit = absurd (omega (arith, limit.stated))
IsLimit-only_limit (n ∷ rest) m limit =
    let same : n ≡ m = limit.agreed.0 in
    let agree : all (λ x. x == n) rest ≡ true = rw same (All-all m rest limit.agreed.1) in
    rw agree (rw same refl)

judge-compliant :
    (o : Option ℕ) (count observed : ℕ)
    → judge o count observed ≡ compliant
    → (m : ℕ) × (o ≡ some m) × (0 < count) × (observed ≤ m)
judge-compliant none count observed h = cc
judge-compliant (some m) count observed h = (m, refl, ground arith, ground arith)

judge-non_compliant :
    (o : Option ℕ) (count observed : ℕ)
    → judge o count observed ≡ non_compliant
    → (m : ℕ) × (o ≡ some m) × (0 < count) × (m < observed)
judge-non_compliant none count observed h = cc
judge-non_compliant (some m) count observed h = (m, refl, ground arith, ground arith)

judge_within :
    (m count observed : ℕ) → 0 < count → observed ≤ m → judge (some m) count observed ≡ compliant
judge_within m count observed some_shift within = ground arith

judge_beyond :
    (m count observed : ℕ)
    → 0 < count
    → m < observed
    → judge (some m) count observed ≡ non_compliant
judge_beyond m count observed some_shift beyond = ground arith

-- A schedule is called compliant exactly if the limits that the evidence states are there and agree, it
-- has a shift, and its longest run of days is at most the limit; it is called non-compliant exactly
-- if that holds but for a longest run beyond the limit.
pub evaluate_consecutive_days_iff :
    (facts : AssistantScheduleFacts) (evidence : List PolicyEvidence)
    → (((evaluate_consecutive_days facts evidence).outcome ≡ compliant) ↔ (
        (m : ℕ) × IsLimit m (limits evidence)
        × (0 < facts.shift_count)
        × (facts.longest_consecutive_days ≤ m)))
      × (((evaluate_consecutive_days facts evidence).outcome ≡ non_compliant) ↔ (
          (m : ℕ) × IsLimit m (limits evidence)
          × (0 < facts.shift_count)
          × (m < facts.longest_consecutive_days)))
unfolding evaluate_consecutive_days
evaluate_consecutive_days_iff facts evidence =
    let xs = limits evidence in
    let o = only_limit xs in
    let count = facts.shift_count in
    let observed = facts.longest_consecutive_days in
    (
      (
        λ h.
            let (m, only, some_shift, within) = judge-compliant o count observed h in
            (m, only_limit-IsLimit xs m only, some_shift, within),
        λ (m, limit, some_shift, within).
            rw (IsLimit-only_limit xs m limit) (judge_within m count observed some_shift within),
      ),
      (
        λ h.
            let (m, only, some_shift, beyond) = judge-non_compliant o count observed h in
            (m, only_limit-IsLimit xs m only, some_shift, beyond),
        λ (m, limit, some_shift, beyond).
            rw (IsLimit-only_limit xs m limit) (judge_beyond m count observed some_shift beyond),
      ),
    )
