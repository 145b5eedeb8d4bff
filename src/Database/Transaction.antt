-- ===== src/Database/Transaction.antt =====
-- One request's transaction, `authenticated_connection` of backend/app/core/database.py: what a
-- request that raises has written is rolled back.
use shiftmate_web.Prelude.Result.{Result, ok, raise}

module _ {E S A : Type 0} where
  -- The tables after the request.
  abbrev pub after : (S → Result E (A × S)) → S → S
  after request s = elim (request s) [ ok (a, s') ↦ s' | raise e ↦ s ]
