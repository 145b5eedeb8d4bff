-- ===== src/Domain/Decimal.antt =====
-- The part of Python's `decimal` that the pay calculation uses: numbers that are not negative,
-- under the default context of 28 digits and rounding to even. A number is its coefficient and
-- its count of decimal places; numbers that differ in trailing zeros are one value to the program.
pub mod Exact
use shiftmate_web.Prelude.{
  ℕ, zero, suc, ◌+◌, ◌-◌, ◌*◌, ◌/◌, ◌%◌, ◌^◌, max, true, false, ◌&&◌, ◌||◌, Option, none, some, ltb,
  ◌==◌, if◌then◌else◌,
}

pub record Decimal : Type 0 where
  pub coefficient : ℕ
  pub scale : ℕ

abbrev pub precision : ℕ
precision = 28

-- The digits of `n`; the fuel `n` is enough.
pub count_digits : ℕ → ℕ → ℕ
count_digits zero n = 0
count_digits (suc fuel) n = elim (n == 0) [ true ↦ 0 | false ↦ suc (count_digits fuel (n / 10)) ]

-- `len(str(n))` for `0 < n`.
unfoldable pub digits : ℕ → ℕ
unfolding count_digits
digits n = count_digits n n

-- One more than the quotient where the part that is dropped is over a half, or a half beside an
-- odd quotient.
abbrev pub round_half_even : ℕ → ℕ → ℕ
round_half_even n d =
    let q = n / d in
    let r = n % d in if ltb d (2 * r) || (2 * r == d && q % 2 == 1) then q + 1 else q

-- The rounding of a result to the context's precision. A place before the point is written as
-- zeros of the coefficient.
unfoldable pub fix : ℕ → ℕ → Decimal
unfolding digits
fix c places =
    let excess = digits c - precision in
    if excess == 0 then record { coefficient = c; scale = places } else record {
      coefficient = round_half_even c (10 ^ excess) * 10 ^ (excess - places);
      scale = places - excess;
    }

unfoldable pub add : Decimal → Decimal → Decimal
add a b =
    let places = max a.scale b.scale in
    fix (a.coefficient * 10 ^ (places - a.scale) + b.coefficient * 10 ^ (places - b.scale)) places

unfoldable pub multiply : Decimal → Decimal → Decimal
multiply a b = fix (a.coefficient * b.coefficient) (a.scale + b.scale)

-- Of an exact quotient the zeros that the division has added are dropped again, at most `n`.
unfoldable pub strip : ℕ → ℕ → ℕ → Decimal
strip zero c places = record { coefficient = c; scale = places }
strip (suc n) c places =
    let rest = strip n (c / 10) (places - 1) in
    if c % 10 == 0 then rest else record { coefficient = c; scale = places }

-- Long division by `d`, with `shift` digits added to the dividend or `cut` to the divisor: a last
-- digit 0 or 5 of an inexact quotient is moved off the tie, then the result is rounded.
unfoldable pub long_division : ℕ → ℕ → Decimal → ℕ → Decimal
long_division shift cut a d =
    let n = a.coefficient * 10 ^ shift in
    let m = d * 10 ^ cut in
    let q = n / m in
    let sticky = if q % 5 == 0 then q + 1 else q in
    let result : Decimal =
      if n % m == 0
      then strip shift q (a.scale + shift)
      else record { coefficient = sticky; scale = a.scale + shift } in
    fix (result.coefficient * 10 ^ (cut - result.scale)) (result.scale - cut)

-- The quotient by a whole number `d` that is not 0, to 29 digits or more before the rounding.
unfoldable pub divide : Decimal → ℕ → Decimal
unfolding digits
divide a d =
    let wanted = digits d + precision + 1 in
    long_division (wanted - digits a.coefficient) (digits a.coefficient - wanted) a d

-- `x.quantize(Decimal("0.01"), rounding=ROUND_HALF_UP)`, in hundredths; no value where the result
-- would have more digits than the context allows (`InvalidOperation`).
unfoldable pub quantize_cents : Decimal → Option ℕ
quantize_cents a =
    let unit = 10 ^ (a.scale - 2) in
    let cents = (2 * (a.coefficient * 10 ^ (2 - a.scale)) + unit) / (2 * unit) in
    if ltb cents (10 ^ precision) then some cents else none
