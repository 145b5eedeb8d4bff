-- ===== src/Domain/Decimal/Exact.antt =====
-- Where the decimals of backend/app/domain/schedule.py lose nothing: results of 28 digits at most,
-- and quotients that come out even.
use native.Mathlib.Nat.{pow-suc, mul-mod_right, mul-div_cancel_left}
use shiftmate_web.Prelude.{
  ℕ, zero, suc, ◌+◌, ◌-◌, ◌*◌, ◌/◌, ◌%◌, ◌^◌, ◌≤◌, ◌<◌, ◌≡◌, ap, arith, inl, inr, true, Bool-cases,
  ◌==◌,
}
use shiftmate_web.Domain.Decimal.{Decimal, count_digits, fix, strip, long_division}

pub pow_pos : (k : ℕ) → 0 < 10 ^ k
pow_pos zero = omega arith
pow_pos (suc k) = rw pow-suc (omega (arith, pow_pos k))

pub count_digits-le : (f n k : ℕ) → n < 10 ^ k → count_digits f n ≤ k
unfolding count_digits
count_digits-le zero n k h = omega arith
count_digits-le (suc f) n zero h = ground arith
count_digits-le (suc f) n (suc k) h =
    let h' : n < 10 ^ k * 10 = rw pow-suc at h in
    ground (arith, count_digits-le f (n / 10) k (omega arith))

-- The fuel of `digits` is enough: the number has no more digits than are counted.
pub lt-pow-count_digits : (f n : ℕ) → n ≤ f → n < 10 ^ count_digits f n
unfolding count_digits
lt-pow-count_digits zero n h = ground arith
lt-pow-count_digits (suc f) zero h = ground arith
lt-pow-count_digits (suc f) (suc n) h =
    ground (arith, pow-suc 10 (count_digits f (suc n / 10)), lt-pow-count_digits f (suc n / 10))

pub fix_short : (c p : ℕ) → c < 10 ^ 28 → fix c p ≡ record { coefficient = c; scale = p }
unfolding fix
fix_short c p h = ground (arith, count_digits-le c c 28 h)

-- What `strip` drops are zeros, at least as many as are known to stand there.
pub strip_value :
    (n m x c p : ℕ)
    → m ≤ n
    → n ≤ p
    → c ≡ x * 10 ^ m
    → (k : ℕ) × ((strip n c p).coefficient * 10 ^ k ≡ x) × ((strip n c p).scale + m + k ≡ p)
unfolding strip
strip_value zero zero x c p h q e = (0, omega arith, omega arith)
strip_value zero (suc m) x c p h q e = absurd (omega arith)
strip_value (suc n) zero x c p h q e = elim (Bool-cases (c % 10 == 0)) [
  | inl zeros ↦
      let (k, v, s) =
        strip_value n 0 (x / 10) (c / 10) (p - 1) (omega arith) (omega arith) (omega arith) in
      (suc k, rw (zeros, pow-suc) (ground arith), rw zeros (omega arith))
  | inr digit ↦ (0, rw digit (omega arith), rw digit (omega arith))
]
strip_value (suc n) (suc m) x c p h q e =
    let e' : c ≡ x * (10 ^ m * 10) = rw pow-suc at e in
    let zeros : (c % 10 == 0) ≡ true = ground arith in
    let (k, v, s) = strip_value n m x (c / 10) (p - 1) (omega arith) (omega arith) (omega arith) in
    (k, rw zeros v, rw zeros (omega arith))

even_division : (n d y : ℕ) → 0 < d → n ≡ d * y → (n % (d * 10 ^ 0) ≡ 0) × (n / (d * 10 ^ 0) ≡ y)
even_division n d y pos e =
    let unit : d * 10 ^ 0 ≡ d = omega arith in
    rw (e, unit) (mul-mod_right d y, mul-div_cancel_left y pos)

shifted : (s c d x : ℕ) → c * 100 ≡ d * x → c * 10 ^ suc (suc s) ≡ d * (x * 10 ^ s)
shifted s c d x e =
    rw (pow-suc 10 (suc s), pow-suc 10 s) (omega (arith, ap (λ (t : ℕ). t * 10 ^ s) e))

no_power : (n : ℕ) → 10 ^ (0 - n) ≡ 1
no_power n = let e : 0 - n ≡ 0 = omega arith in rw e

abbrev pub whole : ℕ → Decimal
whole c = record { coefficient = c; scale = 0 }

-- A quotient that has two decimal places at most is exact.
pub long_division_exact :
    (s c d x : ℕ)
    → 0 < d
    → c * 100 ≡ d * x
    → x < 10 ^ 28
    → (k : ℕ) × ((long_division (suc (suc s)) 0 (whole c) d).coefficient * 10 ^ k ≡ x)
      × ((long_division (suc (suc s)) 0 (whole c) d).scale + k ≡ 2)
unfolding long_division
long_division_exact s c d x pos e short =
    let (even, quotient) =
      even_division (c * 10 ^ suc (suc s)) d (x * 10 ^ s) pos (shifted s c d x e) in
    let even' : (c * 10 ^ suc (suc s) % (d * 10 ^ 0) == 0) ≡ true = ground arith in
    let q = c * 10 ^ suc (suc s) / (d * 10 ^ 0) in
    let n = suc (suc s) in
    let (k, v, p) = strip_value n s x q (0 + n) (omega arith) (omega arith) quotient in
    let r = strip n q (0 + n) in
    let small : r.coefficient * 10 ^ (0 - r.scale) < 10 ^ 28 =
      grind (arith, pow_pos k, no_power r.scale) in
    (
      k,
      rw even' (rw (fix_short _ (r.scale - 0) small) (rw (no_power r.scale) (omega (arith, v)))),
      rw even' (rw (fix_short _ (r.scale - 0) small) (omega (arith, p))),
    )
