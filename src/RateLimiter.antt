-- ===== src/RateLimiter.antt =====
-- `FixedWindowRateLimiter` of backend/app/core/http_security.py. A time is its microseconds on the
-- clock, where the source has a float of seconds.
pub mod Window
mod Tests
use shiftmate_web.Prelude.{
  ℕ, ◌+◌, ◌-◌, ◌/◌, ◌≤◌, ◌≡◌, max, Bool, true, false, not, List, [], ◌∷◌, ◌++◌, ltb, leb, filter,
  length, if◌then◌else◌,
}
use shiftmate_web.Prelude.Result.{Result, ok, raise}
use shiftmate_web.Prelude.Text.{Text, text_eq}
use shiftmate_web.Domain.Zone.{us_per_second}

-- `events[0]` of an empty deque.
pub data LimiterError : Type 0 where
  index_error : LimiterError

abbrev pub Events : Type 0
Events = List (Text × List ℕ)

-- `self._events[key]` of the `defaultdict`.
abbrev pub events_of : Text → Events → List ℕ
events_of key [] = []
events_of key ((k, times) ∷ events) = if text_eq key k then times else events_of key events

abbrev pub store : Text → List ℕ → Events → Events
store key times [] = (key, times) ∷ []
store key times ((k, old) ∷ events) =
    if text_eq key k then (k, times) ∷ events else (k, old) ∷ store key times events

-- `while events and events[0] <= cutoff: events.popleft()`.
unfoldable pub drop_old : ℕ → ℕ → List ℕ → List ℕ
drop_old window now [] = []
drop_old window now (t ∷ times) =
    let rest = drop_old window now times in if leb (t + window) now then rest else t ∷ times

abbrev pub is_used : Text × List ℕ → Bool
is_used (key, []) = false
is_used (key, t ∷ times) = true

-- The dictionary without the empty deques where it has more than 4096 keys.
unfoldable pub prune : Events → Events
prune events = if ltb 4096 (length events) then filter is_used events else events

-- `max(1, int(events[0] + self.window_seconds - timestamp))`.
abbrev pub retry_after : ℕ → ℕ → ℕ → ℕ
retry_after window now first = max 1 ((first + window - now) / us_per_second)

-- The denial.
abbrev pub deny : ℕ → ℕ → Text → List ℕ → Events → Result LimiterError ((Bool × ℕ) × Events)
deny window now key [] events = raise index_error
deny window now key (first ∷ times) events =
    ok ((false, retry_after window now first), store key (first ∷ times) events)

-- `allow`.
unfoldable pub allow : ℕ → ℕ → Text → ℕ → Events → Result LimiterError ((Bool × ℕ) × Events)
unfolding drop_old prune
allow limit window key now events =
    let times = drop_old window now (events_of key events) in
    if leb limit (length times)
    then deny window now key times events
    else ok ((true, 0), prune (store key (times ++ now ∷ []) events))

-- The calls of `allow` on one limiter, one after the other as its lock has it, on a clock that does
-- not go back: the limiter, the requests that were let through, the last one first, and the time.
pub data Served (limit window : ℕ) : Events → List (Text × ℕ) → ℕ → Type 0 where
  start : Served limit window [] [] 0
  passed :
      {events events' : Events} {history : List (Text × ℕ)} {before retry : ℕ} (key : Text)
      (now : ℕ)
      → Served limit window events history before
      → before ≤ now
      → allow limit window key now events ≡ ok ((true, retry), events')
      → Served limit window events' ((key, now) ∷ history) now
  refused :
      {events events' : Events} {history : List (Text × ℕ)} {before retry : ℕ} (key : Text)
      (now : ℕ)
      → Served limit window events history before
      → before ≤ now
      → allow limit window key now events ≡ ok ((false, retry), events')
      → Served limit window events' history now
