-- ===== src/Domain/Schedule/Pay.antt =====
-- The pay of a shift, `estimated_pay` in `calculate_shift` of backend/app/domain/schedule.py,
-- against the exact amount.
use shiftmate_web.Prelude.{
  ℕ, zero, suc, ◌+◌, ◌-◌, ◌*◌, ◌/◌, ◌%◌, ◌^◌, ◌≤◌, ◌<◌, ◌≡◌, refl, ap, some, arith,
}
use shiftmate_web.Domain.Decimal.{
  Decimal, digits, fix, add, divide, long_division, strip, multiply, quantize_cents,
}
use shiftmate_web.Domain.Decimal.Exact.{
  count_digits-le, fix_short, whole, long_division_exact, pow_pos,
}
use shiftmate_web.Domain.Schedule.{duration_hours, estimated_pay}

divide_hours :
    (c x : ℕ)
    → c < 10 ^ 28
    → c * 100 ≡ 3600 * x
    → x < 10 ^ 28
    → (k : ℕ) × ((divide (whole c) 3600).coefficient * 10 ^ k ≡ x)
      × ((divide (whole c) 3600).scale + k ≡ 2)
unfolding divide
divide_hours c x h e short =
    let n : digits c ≤ 28 = unfold digits in count_digits-le c c 28 h in
    let grown : digits 3600 + 28 + 1 - digits c ≡ suc (suc (31 - digits c)) =
      unfold digits in omega arith in
    let uncut : digits c - (digits 3600 + 28 + 1) ≡ 0 = omega arith in
    rw (grown, uncut) (long_division_exact (31 - digits c) c 3600 x (omega arith) e short)

no_microseconds : divide (whole 0) 1_000_000 ≡ whole 0
unfolding divide long_division strip fix
no_microseconds = refl

-- The hours of a whole number of three minutes are exact: `j / 20`, written as `5 * j / 100`.
hours_exact :
    (j : ℕ)
    → j < 10 ^ 25
    → (k : ℕ) × ((duration_hours (180_000_000 * j)).coefficient * 10 ^ k ≡ 5 * j)
      × ((duration_hours (180_000_000 * j)).scale + k ≡ 2)
unfolding duration_hours
hours_exact j h =
    let seconds : 180_000_000 * j / 1_000_000 ≡ 180 * j = omega arith in
    let none_left : 180_000_000 * j % 1_000_000 ≡ 0 = omega arith in
    let total : add (whole (180 * j)) (whole 0) ≡ whole (180 * j) =
      unfold add in ground (arith, fix_short (180 * j) 0) in
    rw (seconds, none_left, no_microseconds, total)
      (divide_hours (180 * j) (5 * j) (omega arith) (omega arith) (omega arith))

multiply_short :
    (a b : Decimal)
    → a.coefficient * b.coefficient < 10 ^ 28
    → multiply a b
      ≡ record { coefficient = a.coefficient * b.coefficient; scale = a.scale + b.scale }
unfolding multiply
multiply_short a b h = fix_short (a.coefficient * b.coefficient) (a.scale + b.scale) h

-- The amount in hundredths of a cent, rounded half up, whatever zeros the decimal leaves out.
quantize_value :
    (c p k y : ℕ)
    → c * 10 ^ k ≡ y
    → p + k ≡ 4
    → k ≤ 2
    → y < 10 ^ 28
    → quantize_cents (record { coefficient = c; scale = p }) ≡ some ((2 * y + 100) / 200)
unfolding quantize_cents
quantize_value c p zero y v s le b = let e : p ≡ 4 = omega arith in rw e (ground arith)
quantize_value c p (suc zero) y v s le b = let e : p ≡ 3 = omega arith in rw e (ground arith)
quantize_value c p (suc (suc zero)) y v s le b = let e : p ≡ 2 = omega arith in rw e (ground arith)
quantize_value c p (suc (suc (suc k))) y v s le b = absurd (omega arith)

-- The pay of a whole number of three minutes, below 10 ^ 25, is the exact amount, `j * rate / 20`
-- cents, rounded half up, where `5 * j * rate` is below 10 ^ 28.
pub estimated_pay_exact :
    (j rate : ℕ)
    → j < 10 ^ 25
    → 5 * j * rate < 10 ^ 28
    → estimated_pay (180_000_000 * j) (record { coefficient = rate; scale = 2 })
      ≡ some ((j * rate + 10) / 20)
unfolding estimated_pay
estimated_pay_exact j rate h b =
    let (k, v, s) = hours_exact j h in
    let hours = duration_hours (180_000_000 * j) in
    let product : hours.coefficient * rate * 10 ^ k ≡ 5 * j * rate =
      omega (arith, ap (λ (t : ℕ). t * rate) v) in
    let small : hours.coefficient * rate < 10 ^ 28 = grind (arith, pow_pos k) in
    let cents : (2 * (5 * j * rate) + 100) / 200 ≡ (j * rate + 10) / 20 = omega arith in
    rw (multiply_short hours (record { coefficient = rate; scale = 2 }) small) (
      rw
        (quantize_value (hours.coefficient * rate) (hours.scale + 2) k (5 * j * rate) product
          (omega arith) (omega arith) b)
        (ap some cents))
