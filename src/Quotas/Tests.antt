-- ===== src/Quotas/Tests.antt =====
-- The theorems on backend/app/core/quotas.py at concrete inputs.
use shiftmate_web.Prelude.{◌≡◌, ◌-◌, refl, min, true, false, List, [], ◌∷◌, arith}
use shiftmate_web.Quotas.{OwnerDay, consume, checked_consume, consume_upload, serve_uploads}
use shiftmate_web.Quotas.Counted.{used, requests, served, serve_uploads_exact}

abbrev first : OwnerDay
first = record { owner = 1; usage_date = 3 }

abbrev second : OwnerDay
second = record { owner = 2; usage_date = 3 }

abbrev uploads : List OwnerDay
uploads = first ∷ second ∷ first ∷ first ∷ []

two_of_three : serve_uploads 2 uploads [] ≡ true ∷ true ∷ true ∷ false ∷ []
unfolding serve_uploads consume_upload checked_consume consume
two_of_three = refl

serve_uploads_exact_example :
    served first uploads (serve_uploads 2 uploads [])
    ≡ min (requests first uploads) (2 - used first [])
serve_uploads_exact_example =
    serve_uploads_exact 2 (omega arith) (omega arith) first uploads [] (omega arith)
