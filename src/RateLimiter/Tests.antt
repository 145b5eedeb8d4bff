-- ===== src/RateLimiter/Tests.antt =====
-- The theorem on `FixedWindowRateLimiter` of backend/app/core/http_security.py at a concrete input.
use shiftmate_web.Prelude.{ℕ, ◌*◌, ◌≤◌, ◌≡◌, refl, true, false, List, [], ◌∷◌, arith}
use shiftmate_web.Prelude.Result.{ok}
use shiftmate_web.Prelude.Text.{Text, codes}
use shiftmate_web.RateLimiter.{Events, drop_old, prune, allow, Served, start, passed, refused}
use shiftmate_web.RateLimiter.Window.{count, times_of, Served-limited}

abbrev peer : Text
peer = codes "peer"

abbrev second : ℕ
second = 1_000_000

abbrev one : Events
one = (peer, 5 * second ∷ []) ∷ []

abbrev two : Events
two = (peer, 5 * second ∷ 20 * second ∷ []) ∷ []

-- Two calls of a peer pass within a minute, the third is refused, and it may come again after 35 s.
first_call : allow 2 (60 * second) peer (5 * second) [] ≡ ok ((true, 0), one)
unfolding allow drop_old prune
first_call = refl

second_call : allow 2 (60 * second) peer (20 * second) one ≡ ok ((true, 0), two)
unfolding allow drop_old prune
second_call = refl

third_call : allow 2 (60 * second) peer (30 * second) two ≡ ok ((false, 35), two)
unfolding allow drop_old prune
third_call = refl

abbrev history : List (Text × ℕ)
history = (peer, 20 * second) ∷ (peer, 5 * second) ∷ []

served : Served 2 (60 * second) two history (30 * second)
served =
    refused peer (30 * second)
      (passed peer (20 * second) (passed peer (5 * second) start (omega arith) first_call)
        (omega arith) second_call)
      (omega arith) third_call

Served-limited_example : count (60 * second) (30 * second) (times_of peer history) ≤ 2
Served-limited_example = Served-limited 2 (60 * second) two history (30 * second) served peer
