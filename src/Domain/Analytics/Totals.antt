-- ===== src/Domain/Analytics/Totals.antt =====
-- What the totals of `calculate_schedule_summary` (backend/app/domain/analytics.py) add up to.
use native.Mathlib.Nat.{zero-add}
use shiftmate_web.Prelude.{
  ℕ, suc, ◌+◌, ◌^◌, ◌<◌, ◌≤◌, ◌≡◌, refl, sym, ap, subst, ◌∙◌, Bool, ◌||◌, List, [], ◌∷◌, arith, map,
  sum, length, insert_by, sort_by, ◌==◌, leb, Bool-cases, inl, inr,
}
use shiftmate_web.Prelude.Result.{Result, ok, traverse, >>=-eq-ok}
use shiftmate_web.Prelude.Text.{Text, text_eq, text_leb}
use shiftmate_web.Domain.Zone.{Date, Zones}
use shiftmate_web.Domain.Decimal.{Decimal, add}
use shiftmate_web.Domain.Decimal.Exact.{fix_short}
use shiftmate_web.Domain.Schedule.{ScheduleError, Shift, PayRate, ShiftCalculation, calculate_shift}
use shiftmate_web.Domain.Analytics.{
  Counts, bump, add_date, Tally, empty_tally, ScheduleSummary, tally_shift, tally_shifts,
  calculate_schedule_summary, summarize, longest_consecutive_run, week_start,
}
use shiftmate_web.Domain.Analytics.Runs.{
  member, IsDistinct, IsRun, IsRun-cong, longest_consecutive_run_exact,
}

module _ {K : Type 0} where
  abbrev pub total : Counts K → ℕ
  total d = sum (map (λ e. e.1) d)

  total-bump :
      (eq : K → K → Bool) (k : K) (n : ℕ) (d : Counts K) → total (bump eq k n d) ≡ total d + n
  unfolding bump
  total-bump eq k n [] = omega arith
  total-bump eq k n ((j, m) ∷ d) = ground (arith, total-bump eq k n d)

  total-insert_by :
      (le : K × ℕ → K × ℕ → Bool) (e : K × ℕ) (d : Counts K)
      → total (insert_by le e d) ≡ e.1 + total d
  total-insert_by le e [] = refl
  total-insert_by le e (f ∷ d) = ground (arith, total-insert_by le e d)

  total-sort_by : (le : K × ℕ → K × ℕ → Bool) (d : Counts K) → total (sort_by le d) ≡ total d
  total-sort_by le [] = refl
  total-sort_by le (e ∷ d) = rw total-insert_by (ap (λ t. e.1 + t) (total-sort_by le d))

add_date-IsDistinct :
    (day : Date) (days : List Date) → IsDistinct days → IsDistinct (add_date day days)
unfolding add_date
add_date-IsDistinct day days h = ground arith

add_cents :
    (a : Decimal) (c : ℕ)
    → a.scale ≡ 2
    → a.coefficient + c < 10 ^ 28
    → add a (record { coefficient = c; scale = 2 })
      ≡ record { coefficient = a.coefficient + c; scale = 2 }
unfolding add
add_cents a c e h = rw e (ground (arith, fix_short (a.coefficient + c) 2 h))

abbrev pub paid_of : List ShiftCalculation → ℕ
paid_of cs = sum (map (λ c. c.paid_duration) cs)

abbrev pub cents_of : List ShiftCalculation → ℕ
cents_of cs = sum (map (λ c. c.estimated_cents) cs)

abbrev pub dates_of : List ShiftCalculation → List Date
dates_of cs = map (λ c. c.work_date) cs

member-add_date :
    (d day : Date) (days : List Date) → member d (add_date day days) ≡ (d == day || member d days)
unfolding add_date
member-add_date d day days = elim (Bool-cases (member day days)) [
  | inl old ↦ rw old (elim (Bool-cases (d == day)) [
    | inl e ↦ let e' : d ≡ day = ground arith in rw (e', old) (ground arith)
    | inr e ↦ rw e
  ])
  | inr new ↦ rw new
]

-- What one run of the loop adds to its variables.
record Tallied (cs : List ShiftCalculation) (t t' : Tally) : Type 0 where
  paid : t'.total_paid ≡ t.total_paid + paid_of cs
  weeks : total t'.weekly ≡ total t.weekly + paid_of cs
  types : total t'.type_counts ≡ total t.type_counts + length cs
  distinct : IsDistinct t.work_dates → IsDistinct t'.work_dates
  dates : (d : Date) → member d t'.work_dates ≡ (member d (dates_of cs) || member d t.work_dates)
  cents :
      t.pay.scale ≡ 2
      → t.pay.coefficient + cents_of cs < 10 ^ 28
      → t'.pay ≡ record { coefficient = t.pay.coefficient + cents_of cs; scale = 2 }

Tallied-nil : (t : Tally) → Tallied [] t t
Tallied-nil t = record {
  paid = omega arith;
  weeks = omega arith;
  types = omega arith;
  distinct = λ h. h;
  dates = λ d. refl;
  cents = λ e h. ground arith;
}

Tallied-cons :
    (shift_type : Text) (c : ShiftCalculation) (cs : List ShiftCalculation) (t t' : Tally)
    → Tallied cs (tally_shift shift_type c t) t'
    → Tallied (c ∷ cs) t t'
unfolding tally_shift
Tallied-cons shift_type c cs t t' h = record {
  paid = omega (arith, h.paid);
  weeks = omega (arith, h.weeks, total-bump ◌==◌ (week_start c.work_date) c.paid_duration t.weekly);
  types = omega (arith, h.types, total-bump text_eq shift_type 1 t.type_counts);
  distinct = λ d. h.distinct (add_date-IsDistinct c.work_date t.work_dates d);
  dates = λ d. ground (arith, h.dates d, member-add_date d c.work_date t.work_dates);
  cents = λ e b. ground (arith, add_cents t.pay c.estimated_cents, h.cents);
}

module _ (zones : Zones) (pay_rates : List PayRate) where
  abbrev pub calculations : List Shift → Result ScheduleError (List ShiftCalculation)
  calculations = traverse (λ s. calculate_shift zones s pay_rates)

  tally_shifts-Tallied :
      (shifts : List Shift) (t t' : Tally)
      → tally_shifts zones pay_rates shifts t ≡ ok t'
      → (cs : List ShiftCalculation) × (calculations shifts ≡ ok cs)
        × (length cs ≡ length shifts)
        × Tallied cs t t'
  unfolding tally_shifts
  tally_shifts-Tallied [] t t' h =
      let same : t ≡ t' = cc in ([], refl, refl, rw (← same) (Tallied-nil t))
  tally_shifts-Tallied (s ∷ rest) t t' h =
      let (c, e, h') = >>=-eq-ok (calculate_shift zones s pay_rates) _ h in
      let (cs, es, n, r) = tally_shifts-Tallied rest (tally_shift s.shift_type c t) t' h' in
      (c ∷ cs, rw (e, es), ap suc n, Tallied-cons s.shift_type c cs t t' r)

  dates_same :
      (d : Date) (cs : List ShiftCalculation) (t : Tally)
      → Tallied cs empty_tally t
      → member d t.work_dates ≡ member d (dates_of cs)
  dates_same d cs t r = ground (arith, r.dates d)

  -- What a summary says of the calculations of its shifts.
  pub record Sums (shifts : List Shift) (s : ScheduleSummary) : Type 0 where
    pub cs : List ShiftCalculation
    pub each : calculations shifts ≡ ok cs
    pub counted : s.shift_count ≡ length cs
    pub paid : s.total_paid_duration ≡ paid_of cs
    pub weeks : total s.weekly_paid_durations ≡ s.total_paid_duration
    pub types : total s.shift_type_counts ≡ s.shift_count
    pub cents :
        cents_of cs < 10 ^ 28 → s.estimated_pay ≡ record { coefficient = cents_of cs; scale = 2 }
    pub run : (d : Date) × IsRun d s.longest_consecutive_days (dates_of cs)
    pub longest : (d n : ℕ) → IsRun d n (dates_of cs) → n ≤ s.longest_consecutive_days

  -- A summary that is returned counts every shift once: the hours of the weeks add up to the total,
  -- the counts of the types to the number of shifts, the cents to the estimated pay (below 10 ^ 28
  -- cents), and the longest run of days is that of the work dates.
  pub calculate_schedule_summary-Sums :
      (shifts : List Shift) (s : ScheduleSummary)
      → calculate_schedule_summary zones shifts pay_rates ≡ ok s
      → Sums shifts s
  unfolding calculate_schedule_summary
  calculate_schedule_summary-Sums shifts s h =
      let (t, e, h') = >>=-eq-ok (tally_shifts zones pay_rates shifts empty_tally) _ h in
      let (cs, es, n, r) = tally_shifts-Tallied shifts empty_tally t e in
      let (run, upper) = longest_consecutive_run_exact t.work_dates (r.distinct tt) in
      let same = λ (d : Date). dates_same d cs t r in
      let returned : summarize shifts t ≡ s = cc h' in
      subst (Sums shifts) returned (record {
        cs = cs;
        each = es;
        counted = sym n;
        paid = r.paid ∙ zero-add (paid_of cs);
        weeks = omega (arith, r.paid, r.weeks, total-sort_by (λ a b. leb a.0 b.0) t.weekly);
        types = omega (arith, r.types, total-sort_by (λ a b. text_leb a.0 b.0) t.type_counts, n);
        cents = λ b. ground (arith, r.cents refl);
        run = (
          run.0,
          IsRun-cong run.0 (longest_consecutive_run t.work_dates) t.work_dates (dates_of cs) same
              run.1,
        );
        longest =
            λ d k q. upper d k (IsRun-cong d k (dates_of cs) t.work_dates (λ e. sym (same e)) q);
      })
