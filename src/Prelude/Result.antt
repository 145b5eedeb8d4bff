-- ===== src/Prelude/Result.antt =====
-- The outcome of code that may raise: a value, or the error that was raised.
use mathlib.Core.Path.{◌≡◌, refl}
use mathlib.Core.Logic.{◌⊎◌, inl, inr}
use mathlib.Core.Bool.{Bool, true, false}
use mathlib.Core.List.{List, [], ◌∷◌}
use mathlib.Core.Option.{Option, none, some}

pub data Result {ℓ} (E : Type 0) (A : Type ℓ) : Type ℓ where
  ok : A → Result E A
  raise : E → Result E A

-- What follows a step that may raise; an error ends the chain.
module _ {ℓ κ} {E : Type 0} {A : Type ℓ} {B : Type κ} where
  infixl 5 ◌>>=◌
  abbrev pub ◌>>=◌ : Result E A → (A → Result E B) → Result E B
  raise error >>= next = raise error
  ok value >>= next = next value

  -- A chain that has a value: the first step has one, and the rest is its outcome.
  pub >>=-eq-ok :
      (step : Result E A) (next : A → Result E B) {outcome : B}
      → (step >>= next) ≡ ok outcome
      → (value : A) × (step ≡ ok value) × (next value ≡ ok outcome)
  >>=-eq-ok (raise error) next chained = cc
  >>=-eq-ok (ok value) next chained = (value, refl, chained)

module _ {E : Type 0} where
  infixl 5 ◌>>◌
  abbrev pub ◌>>◌ {ℓ} : {B : Type ℓ} → Result E (Unit {0}) → Result E B → Result E B
  raise error >> rest = raise error
  ok done >> rest = rest

  -- `if c: raise e`.
  abbrev pub raise_if : Bool → E → Result E (Unit {0})
  raise_if true e = raise e
  raise_if false e = ok tt

  -- `if x is None: raise e`.
  abbrev pub or_raise {ℓ} : {A : Type ℓ} → Option A → E → Result E A
  or_raise none e = raise e
  or_raise (some a) e = ok a

  -- `[f(x) for x in xs]`, where `f` may raise.
  abbrev pub traverse {ℓ κ} :
      {A : Type ℓ} {B : Type κ} → (A → Result E B) → List A → Result E (List B)
  traverse f [] = ok []
  traverse f (x ∷ xs) = do y ← f x; ys ← traverse f xs; ok (y ∷ ys)

module _ {ℓ} {E : Type 0} {B : Type ℓ} where
  pub raise_if-eq-ok :
      (c : Bool) (e : E) (m : Result E B) {b : B}
      → (raise_if c e >> m) ≡ ok b
      → (c ≡ false) × (m ≡ ok b)
  raise_if-eq-ok true e m h = cc
  raise_if-eq-ok false e m h = (refl, h)

  pub or_raise-eq-ok {κ} :
      {A : Type κ} (o : Option A) (e : E) (f : A → Result E B) {b : B}
      → (or_raise o e >>= f) ≡ ok b
      → (a : A) × (o ≡ some a) × (f a ≡ ok b)
  or_raise-eq-ok none e f h = cc
  or_raise-eq-ok (some a) e f h = (a, refl, h)

pub Result-cases {ℓ} :
    {E : Type 0} {A : Type ℓ} (r : Result E A) → ((e : E) × (r ≡ raise e)) ⊎ ((a : A) × (r ≡ ok a))
Result-cases (ok a) = inr (a, refl)
Result-cases (raise e) = inl (e, refl)

-- `try: m; except E as e: raise f(e)`.
abbrev pub map_error {ℓ} : {E F : Type 0} {A : Type ℓ} → (E → F) → Result E A → Result F A
map_error f (ok a) = ok a
map_error f (raise e) = raise (f e)

pub map_error-eq-ok {ℓ κ} :
    {E F : Type 0} {A : Type ℓ} {B : Type κ} (f : F → E) (r : Result F A) (k : A → Result E B)
    {b : B}
    → (map_error f r >>= k) ≡ ok b
    → (a : A) × (r ≡ ok a) × (k a ≡ ok b)
map_error-eq-ok f (ok a) k h = (a, refl, h)
map_error-eq-ok f (raise e) k h = cc
