-- ===== src/Analytics/Dependable.antt =====
-- Where the stored rows keep the invariants of the services, the summary of
-- backend/app/services/analytics.py does not fail.
use shiftmate_web.Prelude.{
  ℕ, ◌+◌, ◌-◌, ◌*◌, ◌/◌, ◌^◌, ◌≤◌, ◌≡◌, refl, subst, ◌∙◌, Bool, true, false, ◌&&◌, ◌⊎◌, inl, inr,
  none, some, any, leb, if◌then◌else◌, List, [], ◌∷◌, String, arith, ltb, All, filter, insert_by,
  sort_by, map, Bool-cases, Option-cases,
}
use shiftmate_web.Prelude.Sorting.{All-filter, All-sort_by, any-sort_by}
use shiftmate_web.Prelude.Result.{Result, ok, raise, traverse}
use shiftmate_web.Domain.Zone.{Date, Zones, aware, us_per_minute}
use shiftmate_web.Domain.Decimal.{Decimal, multiply, quantize_cents}
use shiftmate_web.Domain.Schedule.{
  ScheduleError, invalid_operation, Shift, PayRate, ShiftCalculation, minutes, plus, make_pay_rate,
  work_date, applies_on, the_rate, calculate_shift, estimated_pay, elapsed_duration, paid_duration,
  duration_hours,
}
use shiftmate_web.Domain.Schedule.Validation.{make_shift_iff}
use shiftmate_web.Domain.Analytics.{
  Tally, tally_shift, tally_shifts, calculate_schedule_summary, empty_tally, summarize,
}
use shiftmate_web.Database.{Db, Profile, ShiftRecord, PayRateRecord}
use shiftmate_web.PayRates.{covers, rate_before}
use shiftmate_web.PayRates.Rates.{IsRate}
use shiftmate_web.PayRates.Periods.{weight, rates_on}
use shiftmate_web.PayRates.Coverage.{IsPriced}
use shiftmate_web.Shifts.{in_range, shift_before, get_profile_timezone, select_shifts}
use shiftmate_web.Shifts.Stored.{IsStored, AllStored}
use shiftmate_web.Analytics.{
  arithmetic, AnalyticsSummary, stored_shift, check_dates, summarize_records, get_summary,
  to_summary,
}

rates_on-insert_by :
    (day : Date) (le : PayRateRecord → PayRateRecord → Bool) (r : PayRateRecord)
    (rows : List PayRateRecord)
    → rates_on day (insert_by le r rows)
      ≡ weight r.effective_from r.effective_to day + rates_on day rows
rates_on-insert_by day le r [] = refl
rates_on-insert_by day le r (s ∷ rows) = ground (arith, rates_on-insert_by day le r rows)

rates_on-sort_by :
    (day : Date) (le : PayRateRecord → PayRateRecord → Bool) (rows : List PayRateRecord)
    → rates_on day (sort_by le rows) ≡ rates_on day rows
rates_on-sort_by day le [] = refl
rates_on-sort_by day le (r ∷ rows) =
    omega (arith, rates_on-insert_by day le r (sort_by le rows), rates_on-sort_by day le rows)

abbrev to_rate : PayRateRecord → PayRate
to_rate r = record {
  hourly_rate = r.hourly_rate;
  effective_from = r.effective_from;
  effective_to = r.effective_to;
}

rates_read :
    (rows : List PayRateRecord)
    → All IsRate rows
    → traverse (λ r. make_pay_rate (plus r.hourly_rate) r.effective_from r.effective_to) rows
      ≡ ok (map to_rate rows)
unfolding make_pay_rate
rates_read [] a = refl
rates_read (r ∷ rows) a = ground (arith, rates_read rows a.1, a.0.positive, a.0.ordered)

applies_on-covers :
    (r : PayRateRecord) (day : Date)
    → applies_on (to_rate r) day ≡ covers r.effective_from r.effective_to day
unfolding applies_on covers
applies_on-covers r day = refl

no_rate :
    (day : Date) (rows : List PayRateRecord)
    → rates_on day rows ≡ 0
    → filter (λ r. applies_on r day) (map to_rate rows) ≡ []
no_rate day [] zero_rates = refl
no_rate day (r ∷ rows) zero_rates = ground (arith, applies_on-covers r day, no_rate day rows)

-- Whether one of the rates of a day passes a test.
abbrev pub rate_with : (PayRateRecord → Bool) → Date → List PayRateRecord → Bool
rate_with p day rows = any (λ r. covers r.effective_from r.effective_to day && p r) rows

rate_with_none :
    (p : PayRateRecord → Bool) (day : Date) (rows : List PayRateRecord)
    → rates_on day rows ≡ 0
    → rate_with p day rows ≡ false
rate_with_none p day [] zero_rates = refl
rate_with_none p day (r ∷ rows) zero_rates = ground (arith, rate_with_none p day rows)

-- With one rate on the day, the choice of the rate succeeds, and what is so of one is so of that one.
the_rate-found :
    (p : PayRateRecord → Bool) (day : Date) (rows : List PayRateRecord)
    → rates_on day rows ≡ 1
    → (r : PayRateRecord) × (the_rate (filter (λ r. applies_on r day) (map to_rate rows))
        ≡ ok (to_rate r))
      × (rate_with p day rows ≡ p r)
unfolding the_rate
the_rate-found p day [] one = absurd (omega arith)
the_rate-found p day (r ∷ rows) one =
    elim (Bool-cases (covers r.effective_from r.effective_to day)) [
      | inl here ↦
          let others : rates_on day rows ≡ 0 = ground arith in
          (
            r,
            ground (arith, applies_on-covers r day, no_rate day rows),
            ground (arith, rate_with_none p day rows others),
          )
      | inr there ↦
          let (q, found, same) = the_rate-found p day rows (ground arith) in
          (q, ground (arith, applies_on-covers r day), ground arith)
    ]

-- The cents of an amount, rounded half up.
abbrev pub cents_of : Decimal → ℕ
cents_of a =
    (2 * (a.coefficient * 10 ^ (2 - a.scale)) + 10 ^ (a.scale - 2)) / (2 * 10 ^ (a.scale - 2))

-- Whether the pay of a shift at a rate has more than 28 digits, in cents.
abbrev pub is_too_long : ShiftRecord → PayRateRecord → Bool
is_too_long s r = leb (10 ^ 28) (
    cents_of (
      multiply (duration_hours (s.end_at - s.start_at - s.break_minutes * us_per_minute))
        r.hourly_rate))

-- Whether the pay of one of the shifts, at a rate of its day, is too long.
abbrev pub any_too_long : List PayRateRecord → List ShiftRecord → Bool
any_too_long rows shifts = any (λ s. rate_with (is_too_long s) s.work_date rows) shifts

-- The only error that is left, and when it is there.
abbrev Settles : {A : Type 0} → Bool → Result ScheduleError A → Type 0
Settles {A} long r =
    ((long ≡ true) × (r ≡ raise invalid_operation)) ⊎ ((long ≡ false) × ((a : A) × (r ≡ ok a)))

bounded :
    (n b : ℕ)
    → ((leb b n ≡ true) × ((if ltb n b then some n else none) ≡ none))
      ⊎ ((leb b n ≡ false) × ((cents : ℕ) × ((if ltb n b then some n else none) ≡ some cents)))
bounded n b = elim (Bool-cases (leb b n)) [
  | inl long ↦ inl (long, ground arith)
  | inr short ↦ inr (short, (n, ground arith))
]

quantize_cents-bounded :
    (a : Decimal)
    → ((leb (10 ^ 28) (cents_of a) ≡ true) × (quantize_cents a ≡ none))
      ⊎ ((leb (10 ^ 28) (cents_of a) ≡ false) × ((cents : ℕ) × (quantize_cents a ≡ some cents)))
unfolding quantize_cents
quantize_cents-bounded a = bounded (cents_of a) (10 ^ 28)

-- The pay of a shift has a value exactly if it is not too long.
estimated_pay-cents :
    (s : ShiftRecord) (r : PayRateRecord)
    → let pay =
        estimated_pay (s.end_at - s.start_at - s.break_minutes * us_per_minute) r.hourly_rate in
      ((is_too_long s r ≡ true) × (pay ≡ none))
      ⊎ ((is_too_long s r ≡ false) × ((cents : ℕ) × (pay ≡ some cents)))
unfolding estimated_pay
estimated_pay-cents s r = quantize_cents-bounded (
    multiply (duration_hours (s.end_at - s.start_at - s.break_minutes * us_per_minute))
      r.hourly_rate)

module _ (zones : Zones) (timezone : String) where
  abbrev as_shift : ShiftRecord → Shift
  as_shift r = record {
    start_at = r.start_at;
    end_at = r.end_at;
    break_minutes = r.break_minutes;
    timezone = timezone;
    shift_type = r.shift_type;
  }

  stored_shift-ok :
      (r : ShiftRecord)
      → IsStored zones timezone r
      → stored_shift zones timezone r ≡ ok (as_shift r)
  stored_shift-ok r s =
      (make_shift_iff zones (aware r.start_at) (aware r.end_at) (minutes r.break_minutes) timezone
          r.shift_type (as_shift r)).1
        (record {
          starts = refl;
          ends = refl;
          typed = s.typed;
          pause = inl refl;
          a_day = s.a_day;
          zone = s.known;
          ordered = s.ordered;
          fits = s.fits;
          same_zone = refl;
          same_type = refl;
        })

  shifts_read :
      (records : List ShiftRecord)
      → All (IsStored zones timezone) records
      → (traverse (stored_shift zones timezone) records ≡ ok (map as_shift records))
        × (check_dates zones timezone records (map as_shift records) ≡ ok tt)
  unfolding check_dates work_date
  shifts_read [] a = (refl, refl)
  shifts_read (r ∷ records) a =
      let (read, checked) = shifts_read records a.1 in
      (rw (stored_shift-ok r a.0, read), ground (arith, a.0.dated))

  abbrev made : Shift → PayRate → ℕ → ShiftCalculation
  made shift rate cents = record {
    work_date = work_date zones shift;
    elapsed_duration = elapsed_duration shift;
    paid_duration = paid_duration shift;
    hourly_rate = rate.hourly_rate;
    estimated_cents = cents;
  }

  calculate_shift-Settles :
      (r : ShiftRecord) (rows : List PayRateRecord)
      → IsStored zones timezone r
      → rates_on r.work_date rows ≡ 1
      → Settles
          (rate_with (is_too_long r) r.work_date rows)
          (calculate_shift zones (as_shift r) (map to_rate rows))
  unfolding calculate_shift work_date paid_duration elapsed_duration
  calculate_shift-Settles r rows s one =
      let (rate, found, same) = the_rate-found (is_too_long r) r.work_date rows one in
      let found' =
        subst
          (λ day. the_rate (filter (λ q. applies_on q day) (map to_rate rows)) ≡ ok (to_rate rate))
          s.dated found in
      elim (estimated_pay-cents r rate) [
        | inl (long, overflow) ↦ inl (same ∙ long, rw found' (rw overflow))
        | inr (short, (cents, e)) ↦
            inr (same ∙ short, (made (as_shift r) (to_rate rate) cents, rw found' (rw e)))
      ]

  tally_shifts-Settles :
      (records : List ShiftRecord) (rows : List PayRateRecord) (t : Tally)
      → All (IsStored zones timezone) records
      → IsPriced rows records
      → Settles
          (any_too_long rows records)
          (tally_shifts zones (map to_rate rows) (map as_shift records) t)
  unfolding tally_shifts
  tally_shifts-Settles [] rows t a p = inr (refl, (t, refl))
  tally_shifts-Settles (r ∷ records) rows t a p = elim (calculate_shift-Settles r rows a.0 p.0) [
    | inl (long, e) ↦ inl (rw long refl, rw e)
    | inr (short, (c, e)) ↦
        rw (e, short) (tally_shifts-Settles records rows (tally_shift r.shift_type c t) a.1 p.1)
  ]

  summarize_records-Settles :
      (records : List ShiftRecord) (rows : List PayRateRecord)
      → All (IsStored zones timezone) records
      → All IsRate rows
      → IsPriced rows records
      → Settles (any_too_long rows records) (summarize_records zones timezone records rows)
  unfolding summarize_records calculate_schedule_summary
  summarize_records-Settles records rows a q p =
      let (read, checked) = shifts_read records a in
      elim (tally_shifts-Settles records rows empty_tally a p) [
        | inl (long, e) ↦ inl (long, rw (read, rates_read rows q) (rw checked (rw e)))
        | inr (short, (t, e)) ↦ inr (
          short,
          (summarize (map as_shift records) t, rw (read, rates_read rows q) (rw checked (rw e))),
        )
      ]

any_too_long-sort_by :
    (rows : List PayRateRecord) (records : List ShiftRecord)
    → any_too_long (sort_by rate_before rows) records ≡ any_too_long rows records
any_too_long-sort_by rows [] = refl
any_too_long-sort_by rows (s ∷ records) =
    let here =
      any-sort_by rate_before
        (λ r. covers r.effective_from r.effective_to s.work_date && is_too_long s r) rows in
    rw (here, any_too_long-sort_by rows records) refl

IsPriced-sort_by :
    (rows : List PayRateRecord) (records : List ShiftRecord)
    → IsPriced rows records
    → IsPriced (sort_by rate_before rows) records
IsPriced-sort_by rows [] p = tt
IsPriced-sort_by rows (r ∷ records) p =
    (rates_on-sort_by r.work_date rate_before rows ∙ p.0, IsPriced-sort_by rows records p.1)

profile_of :
    (db : Db) (timezone : String)
    → get_profile_timezone db ≡ some timezone
    → (p : Profile) × (db.profile ≡ some p) × (p.timezone ≡ timezone)
profile_of db timezone here = elim (Option-cases db.profile) [
  | inl missing ↦ absurd (ground arith)
  | inr (p, e) ↦ (p, e, ground arith)
]

All-select_shifts :
    (P : ShiftRecord → Type 0) (date_from date_to : Date) (db : Db)
    → All P db.shifts
    → All P (select_shifts (some date_from) (some date_to) db)
unfolding select_shifts
All-select_shifts P date_from date_to db a =
    All-sort_by P shift_before _
      (All-filter P (λ s. in_range (some date_from) (some date_to) s.work_date) db.shifts a)

-- Where every stored shift and rate passes the rules and every shift has exactly one rate, a
-- summary of a range of at most 366 days is returned if no listed shift has a pay, in cents and at
-- the rate of its day, of more than 28 digits, and else the error is that of the arithmetic: no
-- stored work date differs, and no rate is missing or ambiguous.
pub get_summary-returns :
    (zones : Zones) (timezone : String) (date_from date_to : Date) (db : Db)
    → AllStored zones timezone db
    → All IsRate db.pay_rates
    → IsPriced db.pay_rates db.shifts
    → date_from ≤ date_to
    → date_to ≤ date_from + 365
    → ((any_too_long db.pay_rates (select_shifts (some date_from) (some date_to) db) ≡ true)
        × (get_summary zones date_from date_to db ≡ raise arithmetic))
      ⊎ ((any_too_long db.pay_rates (select_shifts (some date_from) (some date_to) db) ≡ false)
          × ((s : AnalyticsSummary) × (get_summary zones date_from date_to db ≡ ok s)))
unfolding get_summary summarize_records select_shifts
get_summary-returns zones timezone date_from date_to db (stored, here) rates priced le span =
    let (profile, found, zone) = profile_of db timezone here in
    let chosen = select_shifts (some date_from) (some date_to) db in
    let rows = sort_by rate_before db.pay_rates in
    let forward : ltb date_to date_from ≡ false = ground arith in
    let short : ltb 365 (date_to - date_from) ≡ false = ground arith in
    let settles : Settles (any_too_long db.pay_rates chosen)
        (summarize_records zones profile.timezone chosen rows) =
      rw zone (
        subst (λ long. Settles long (summarize_records zones timezone chosen rows))
          (any_too_long-sort_by db.pay_rates chosen)
          (summarize_records-Settles zones timezone chosen rows
            (All-select_shifts (IsStored zones timezone) date_from date_to db stored)
            (All-sort_by IsRate rate_before db.pay_rates rates)
            (All-select_shifts (λ s. rates_on s.work_date rows ≡ 1) date_from date_to db
              (IsPriced-sort_by db.pay_rates db.shifts priced)))) in
    elim settles [
      | inl (long, e) ↦ inl (long, rw (forward, short, found) (rw e))
      | inr (fits, (s, e)) ↦
          inr (fits, (to_summary date_from date_to profile s, rw (forward, short, found) (rw e)))
    ]
