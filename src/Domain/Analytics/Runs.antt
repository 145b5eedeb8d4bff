-- ===== src/Domain/Analytics/Runs.antt =====
-- The longest run of consecutive work days, `_longest_consecutive_run` of
-- backend/app/domain/analytics.py, against its description by membership.
use shiftmate_web.Prelude.{
  ℕ, zero, suc, ◌+◌, ◌-◌, ◌≤◌, ◌<◌, max, ◌≡◌, ◌∙◌, refl, sym, subst, Bool, true, false, ◌||◌,
  Option, some, none, ◌⊎◌, List, [], ◌∷◌, arith, leb, ltb, ◌==◌, any, All, insert_by, sort_by,
  Bool-cases, inl, inr,
}
use shiftmate_web.Domain.Zone.{Date}
use shiftmate_web.Domain.Analytics.{next_run, scan, longest_consecutive_run}

abbrev pub member : Date → List Date → Bool
member d days = any (λ e. d == e) days

-- All of `d`, `d + 1`, ..., `d + n - 1` are among the days.
abbrev pub IsRun : Date → ℕ → List Date → Type 0
IsRun d n days = (i : ℕ) → i < n → member (d + i) days ≡ true

-- Strictly ascending.
abbrev pub Ascends : List Date → Type 0
Ascends [] = Unit
Ascends (x ∷ xs) = All (λ y. x < y) xs × Ascends xs

-- No day stands twice.
abbrev pub IsDistinct : List Date → Type 0
IsDistinct [] = Unit
IsDistinct (x ∷ xs) = (member x xs ≡ false) × IsDistinct xs

member-insert_by :
    (d x : Date) (xs : List Date) → member d (insert_by leb x xs) ≡ (d == x || member d xs)
member-insert_by d x [] = refl
member-insert_by d x (y ∷ ys) = ground (arith, member-insert_by d x ys)

member-sort_by : (d : Date) (xs : List Date) → member d (sort_by leb xs) ≡ member d xs
member-sort_by d [] = refl
member-sort_by d (x ∷ xs) = rw (member-insert_by d x (sort_by leb xs), member-sort_by d xs)

All-insert_by :
    (b x : Date) (xs : List Date)
    → b < x
    → All (λ y. b < y) xs
    → All (λ y. b < y) (insert_by leb x xs)
All-insert_by b x [] h a = (h, tt)
All-insert_by b x (y ∷ ys) h a = ground (arith, All-insert_by b x ys h a.1)

All-weaken : (b c : Date) (xs : List Date) → b ≤ c → All (λ y. c < y) xs → All (λ y. b < y) xs
All-weaken b c [] h a = tt
All-weaken b c (x ∷ xs) h a = (omega arith, All-weaken b c xs h a.1)

insert_by-Ascends :
    (x : Date) (xs : List Date) → member x xs ≡ false → Ascends xs → Ascends (insert_by leb x xs)
insert_by-Ascends x [] m a = (tt, tt)
insert_by-Ascends x (y ∷ ys) m a = elim (Bool-cases (leb x y)) [
  | inl le ↦ rw le ((ground arith, All-weaken x y ys (ground arith) a.0), a)
  | inr gt ↦
      rw gt (All-insert_by y x ys (ground arith) a.0, insert_by-Ascends x ys (ground arith) a.1)
]

sort_by-Ascends : (xs : List Date) → IsDistinct xs → Ascends (sort_by leb xs)
sort_by-Ascends [] d = tt
sort_by-Ascends (x ∷ xs) d =
    insert_by-Ascends x (sort_by leb xs) (member-sort_by x xs ∙ d.0) (sort_by-Ascends xs d.1)

member_above : (d x : Date) (xs : List Date) → All (λ y. x < y) xs → member d xs ≡ true → x < d
member_above d x [] a m = ground arith
member_above d x (y ∷ ys) a m = ground (arith, member_above d x ys a.1)

one-le-next_run : (c : ℕ) (p : Option Date) (x : Date) → 1 ≤ next_run c p x
unfolding next_run
one-le-next_run c none x = omega arith
one-le-next_run c (some p) x = ground arith

next_run_step : (c p : ℕ) → next_run c (some p) (p + 1) ≡ c + 1
unfolding next_run
next_run_step c p = ground arith

le-scan : (l c : ℕ) (p : Option Date) (days : List Date) → l ≤ scan l c p days
unfolding scan
le-scan l c p [] = omega arith
le-scan l c p (x ∷ xs) =
    omega (arith, le-scan (max l (next_run c p x)) (next_run c p x) (some x) xs)

module _ (d n x : Date) (xs : List Date) (a : All (λ y. x < y) xs) where
  -- A run in a sorted list that does not begin with its head lies behind it.
  IsRun-tail : x < d → IsRun d n (x ∷ xs) → IsRun d n xs
  IsRun-tail lt r i h = ground (arith, r i h)

  IsRun-rest : IsRun x (suc n) (x ∷ xs) → IsRun (x + 1) n xs
  IsRun-rest r i h =
      let e : x + suc i ≡ x + 1 + i = omega arith in
      let m : member (x + 1 + i) (x ∷ xs) ≡ true =
        subst (λ k. member k (x ∷ xs) ≡ true) e (r (suc i) (omega arith)) in
      ground arith

  IsRun-head : IsRun d (suc n) (x ∷ xs) → (d ≡ x) ⊎ (x < d)
  IsRun-head r =
      let e : d + 0 ≡ d = omega arith in
      let m : member d (x ∷ xs) ≡ true =
        subst (λ k. member k (x ∷ xs) ≡ true) e (r 0 (omega arith)) in
      grind (arith, member_above d x xs a)

-- No run in the rest of the days is longer than the answer; and one that begins a day after the
-- previous day is counted on top of the run so far.
scan_upper :
    (l c p : ℕ) (days : List Date) (d n : ℕ)
    → Ascends (p ∷ days)
    → IsRun d (suc n) days
    → (suc n ≤ scan l c (some p) days) × (d ≡ p + 1 → c + suc n ≤ scan l c (some p) days)
unfolding scan
scan_upper l c p [] d n a r = ground (arith, r 0 (omega arith))
scan_upper l c p (x ∷ xs) d zero a r =
    let k = next_run c (some p) x in
    let grown : d ≡ x → d ≡ p + 1 → k ≡ c + 1 = λ here adj. rw (← here, adj) (next_run_step c p) in
    ground (
      arith,
      IsRun-head d zero x xs a.1.0 r,
      one-le-next_run c (some p) x,
      grown,
      le-scan (max l k) k (some x) xs,
    )
scan_upper l c p (x ∷ xs) d (suc n) a r =
    let k = next_run c (some p) x in
    elim (IsRun-head d (suc n) x xs a.1.0 r) [
      | inl here ↦
          let grown : d ≡ p + 1 → k ≡ c + 1 = λ adj. rw (← here, adj) (next_run_step c p) in
          let r' : IsRun x (suc (suc n)) (x ∷ xs) =
            subst (λ e. IsRun e (suc (suc n)) (x ∷ xs)) here r in
          let ih = scan_upper (max l k) k x xs (x + 1) n a.1 (IsRun-rest x (suc n) x xs a.1.0 r') in
          (
            ground (arith, ih.1 refl, one-le-next_run c (some p) x),
            λ adj. ground (arith, ih.1 refl, grown adj),
          )
      | inr later ↦
          let ih =
            scan_upper (max l k) k x xs d (suc n) a.1
              (IsRun-tail d (suc (suc n)) x xs a.1.0 later r) in
          (ih.0, λ adj. absurd (omega arith))
    ]

module _ (all_days : List Date) where
  IsRun-one : (x : Date) → member x all_days ≡ true → IsRun x 1 all_days
  IsRun-one x m i h = let e : x + i ≡ x = omega arith in rw e m

  IsRun-longer :
      (b n x : ℕ)
      → IsRun b n all_days
      → member x all_days ≡ true
      → b + n ≡ x
      → IsRun b (n + 1) all_days
  IsRun-longer b n x r m e i h = elim (Bool-cases (ltb i n)) [
    | inl lt ↦ r i (ground arith)
    | inr ge ↦ let last : b + i ≡ x = ground arith in rw last m
  ]

  -- The run that ends at `x`.
  next_run-IsRun :
      (c p b x : ℕ)
      → p < x
      → member x all_days ≡ true
      → IsRun b c all_days
      → b + c ≡ p + 1
      → (b' : ℕ) × IsRun b' (next_run c (some p) x) all_days × (b' + next_run c (some p) x ≡ x + 1)
  unfolding next_run
  next_run-IsRun c p b x lt m rb eq = elim (Bool-cases (x - p == 1)) [
    | inl adj ↦ (b, rw adj (IsRun-longer b c x rb m (ground arith)), rw adj (ground arith))
    | inr gap ↦ (x, rw gap (IsRun-one x m), rw gap refl)
  ]

  max-IsRun :
      (e l b k : ℕ) → IsRun e l all_days → IsRun b k all_days → (d : ℕ) × IsRun d (max l k) all_days
  max-IsRun e l b k re rb = elim (Bool-cases (leb l k)) [
    | inl le ↦ let h : max l k ≡ k = ground arith in (b, rw h rb)
    | inr gt ↦ let h : max l k ≡ l = ground arith in (e, rw h re)
  ]

  -- The answer is the length of a run of the whole list, if the counts at the start are.
  scan_lower :
      (l c p e b : ℕ) (days : List Date)
      → Ascends (p ∷ days)
      → All (λ y. member y all_days ≡ true) days
      → IsRun e l all_days
      → IsRun b c all_days
      → b + c ≡ p + 1
      → (d : ℕ) × IsRun d (scan l c (some p) days) all_days
  unfolding scan
  scan_lower l c p e b [] a m re rb eq = (e, re)
  scan_lower l c p e b (x ∷ xs) a m re rb eq =
      let k = next_run c (some p) x in
      let (b', rb', eq') = next_run-IsRun c p b x a.0.0 m.0 rb eq in
      let (e', re') = max-IsRun e l b' k re rb' in
      scan_lower (max l k) k x e' b' xs a.1 m.1 re' rb' eq'

pub IsRun-cong :
    (d n : ℕ) (xs ys : List Date)
    → ((e : ℕ) → member e xs ≡ member e ys)
    → IsRun d n xs
    → IsRun d n ys
IsRun-cong d n xs ys same r i h = sym (same (d + i)) ∙ r i h

All-member :
    (xs ys : List Date)
    → ((e : ℕ) → member e xs ≡ true → member e ys ≡ true)
    → All (λ y. member y ys ≡ true) xs
All-member [] ys h = tt
All-member (x ∷ xs) ys h = (h x (ground arith), All-member xs ys (λ e m. h e (ground arith)))

scan_sorted_upper :
    (x : Date) (xs : List Date) (d n : ℕ)
    → Ascends (x ∷ xs)
    → IsRun d n (x ∷ xs)
    → n ≤ scan 1 1 (some x) xs
scan_sorted_upper x xs d zero a r = omega arith
scan_sorted_upper x xs d (suc zero) a r = le-scan 1 1 (some x) xs
scan_sorted_upper x xs d (suc (suc n)) a r = elim (IsRun-head d (suc n) x xs a.0 r) [
  | inl here ↦
      let r' : IsRun x (suc (suc n)) (x ∷ xs) =
        subst (λ e. IsRun e (suc (suc n)) (x ∷ xs)) here r in
      let ih = scan_upper 1 1 x xs (x + 1) n a (IsRun-rest x (suc n) x xs a.0 r') in
      omega (arith, ih.1 refl)
  | inr later ↦ (scan_upper 1 1 x xs d (suc n) a (IsRun-tail d (suc (suc n)) x xs a.0 later r)).0
]

scan_sorted :
    (days : List Date)
    → Ascends days
    → ((d : ℕ) × IsRun d (scan 0 0 none days) days)
      × ((d n : ℕ) → IsRun d n days → n ≤ scan 0 0 none days)
unfolding scan next_run
scan_sorted [] a = (
  (0, λ i h. absurd (omega arith)),
  λ d. elim [ zero ↦ λ r. omega arith | suc n ↦ λ r. ground (arith, r 0 (omega arith)) ],
)
scan_sorted (x ∷ xs) a =
    let one = IsRun-one (x ∷ xs) x (ground arith) in
    let own = All-member xs (x ∷ xs) (λ e m. ground arith) in
    (scan_lower (x ∷ xs) 1 1 x x x xs a own one one refl, λ d n r. scan_sorted_upper x xs d n a r)

-- Of distinct work dates the answer is the length of some run of consecutive dates among them, and
-- no run among them is longer.
pub longest_consecutive_run_exact :
    (days : List Date)
    → IsDistinct days
    → ((d : ℕ) × IsRun d (longest_consecutive_run days) days)
      × ((d n : ℕ) → IsRun d n days → n ≤ longest_consecutive_run days)
unfolding longest_consecutive_run
longest_consecutive_run_exact days h =
    let sorted = sort_by leb days in
    let same = λ (e : ℕ). member-sort_by e days in
    let ((d, run), upper) = scan_sorted sorted (sort_by-Ascends days h) in
    (
      (d, IsRun-cong d (scan 0 0 none sorted) sorted days same run),
      λ e n r. upper e n (IsRun-cong e n days sorted (λ e. sym (same e)) r),
    )
