-- ===== src/Database/Rows.antt =====
-- The statements of the repositories on one table: `SELECT ... WHERE id`, `UPDATE ... WHERE id`,
-- `DELETE ... WHERE id`, over rows with an id.
use shiftmate_web.Prelude.{
  ℕ, ◌≡◌, Bool, false, not, Option, List, [], ◌∷◌, ◌==◌, any, filter, find?, if◌then◌else◌,
}

module _ {A : Type 0} (id_of : A → ℕ) where
  abbrev pub select : ℕ → List A → Option A
  select i rows = find? (λ r. id_of r == i) rows

  abbrev pub update : ℕ → (A → A) → List A → List A
  update i f [] = []
  update i f (r ∷ rows) = (if id_of r == i then f r else r) ∷ update i f rows

  abbrev pub delete : ℕ → List A → List A
  delete i rows = filter (λ r. not (id_of r == i)) rows

  abbrev pub has_id : ℕ → List A → Bool
  has_id i rows = any (λ r. id_of r == i) rows

  -- The primary key: no id stands twice.
  abbrev pub IsKeyed : List A → Type 0
  IsKeyed [] = Unit
  IsKeyed (r ∷ rows) = (has_id (id_of r) rows ≡ false) × IsKeyed rows
