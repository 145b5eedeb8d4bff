-- ===== src/RateLimiter/Window.antt =====
-- What `FixedWindowRateLimiter` of backend/app/core/http_security.py promises.
use shiftmate_web.Prelude.{
  ℕ, ◌+◌, ◌≤◌, ◌≡◌, refl, sym, ap, ◌∙◌, Bool, true, false, List, [], ◌∷◌, ◌++◌, arith, ltb, leb,
  any, filter, length, length-append, if◌then◌else◌, ◌⊎◌, Bool-cases, inl, inr,
}
use shiftmate_web.Prelude.Result.{ok}
use shiftmate_web.Prelude.Text.{Text, text_eq, text_eq→eq, text_eq_refl}
use shiftmate_web.RateLimiter.{
  Events, events_of, store, drop_old, is_used, prune, deny, allow, Served, start, passed, refused,
}

-- The times that are less than a window before `now`.
abbrev pub count : ℕ → ℕ → List ℕ → ℕ
count window now [] = 0
count window now (t ∷ times) = (if ltb now (t + window) then 1 else 0) + count window now times

-- Of the requests that were let through, those of a key.
abbrev pub times_of : Text → List (Text × ℕ) → List ℕ
times_of key [] = []
times_of key ((k, t) ∷ history) =
    let rest = times_of key history in if text_eq key k then t ∷ rest else rest

count-le-length : (window now : ℕ) (times : List ℕ) → count window now times ≤ length times
count-le-length window now [] = omega arith
count-le-length window now (t ∷ times) = ground (arith, count-le-length window now times)

count-append :
    (window now : ℕ) (xs : List ℕ) (t : ℕ)
    → count window now (xs ++ t ∷ []) ≡ count window now (t ∷ xs)
count-append window now [] t = refl
count-append window now (x ∷ xs) t = omega (arith, count-append window now xs t)

-- What is dropped counts no more, now or later.
count-drop_old :
    (window before now : ℕ) (times : List ℕ)
    → before ≤ now
    → count window now (drop_old window before times) ≡ count window now times
unfolding drop_old
count-drop_old window before now [] le = refl
count-drop_old window before now (t ∷ times) le =
    ground (arith, count-drop_old window before now times)

length-drop_old :
    (window now : ℕ) (times : List ℕ) → length (drop_old window now times) ≤ length times
unfolding drop_old
length-drop_old window now [] = omega arith
length-drop_old window now (t ∷ times) = ground (arith, length-drop_old window now times)

text_eq_other : (s t : Text) → text_eq s t ≡ false → text_eq t s ≡ false
text_eq_other s t h = elim (Bool-cases (text_eq t s)) [
  | inl e ↦
      let same : t ≡ s = text_eq→eq t s e in
      absurd (let h' = rw same at h in cc (sym (text_eq_refl s) ∙ h'))
  | inr e ↦ e
]

abbrev pub has_key : Text → Events → Bool
has_key key events = any (λ e. text_eq key e.0) events

-- A dictionary has each key once.
abbrev pub IsDict : Events → Type 0
IsDict [] = Unit
IsDict ((k, times) ∷ events) = (has_key k events ≡ false) × IsDict events

has_key-filter :
    (key : Text) (events : Events)
    → has_key key events ≡ false
    → has_key key (filter is_used events) ≡ false
has_key-filter key [] h = refl
has_key-filter key ((k, []) ∷ events) h = ground (arith, has_key-filter key events)
has_key-filter key ((k, t ∷ times) ∷ events) h = ground (arith, has_key-filter key events)

filter-IsDict : (events : Events) → IsDict events → IsDict (filter is_used events)
filter-IsDict [] d = tt
filter-IsDict ((k, []) ∷ events) d = filter-IsDict events d.1
filter-IsDict ((k, t ∷ times) ∷ events) d = (has_key-filter k events d.0, filter-IsDict events d.1)

events_of-absent :
    (key : Text) (events : Events) → has_key key events ≡ false → events_of key events ≡ []
events_of-absent key [] h = refl
events_of-absent key ((k, times) ∷ events) h = ground (arith, events_of-absent key events)

events_of-filter :
    (key : Text) (events : Events)
    → IsDict events
    → events_of key (filter is_used events) ≡ events_of key events
events_of-filter key [] d = refl
events_of-filter key ((k, []) ∷ events) d = elim (Bool-cases (text_eq key k)) [
  | inl e ↦
      let same : key ≡ k = text_eq→eq key k e in
      rw (e, same) (events_of-absent k (filter is_used events) (has_key-filter k events d.0))
  | inr e ↦ rw e (events_of-filter key events d.1)
]
events_of-filter key ((k, t ∷ times) ∷ events) d = ground (arith, events_of-filter key events d.1)

events_of-prune :
    (key : Text) (events : Events)
    → IsDict events
    → events_of key (prune events) ≡ events_of key events
unfolding prune
events_of-prune key events d = ground (arith, events_of-filter key events d)

prune-IsDict : (events : Events) → IsDict events → IsDict (prune events)
unfolding prune
prune-IsDict events d = elim (Bool-cases (ltb 4096 (length events))) [
  | inl many ↦ rw many (filter-IsDict events d)
  | inr few ↦ rw few d
]

events_of-store :
    (key other : Text) (times : List ℕ) (events : Events)
    → events_of other (store key times events)
      ≡ (if text_eq other key then times else events_of other events)
events_of-store key other times [] = refl
events_of-store key other times ((k, old) ∷ events) = elim (Bool-cases (text_eq key k)) [
  | inl e ↦ let same : key ≡ k = text_eq→eq key k e in rw (e, same) (ground arith)
  | inr e ↦ elim (Bool-cases (text_eq other key)) [
    | inl f ↦
        let same : other ≡ key = text_eq→eq other key f in
        let e' : text_eq other k ≡ false = rw same e in
        let rest = events_of-store key other times events in
        let rest' : events_of other (store key times events) ≡ times = rw f at rest in
        rw (e, f, e') rest'
    | inr f ↦ ground (arith, events_of-store key other times events)
  ]
]

has_key-store :
    (key other : Text) (times : List ℕ) (events : Events)
    → text_eq other key ≡ false
    → has_key other events ≡ false
    → has_key other (store key times events) ≡ false
has_key-store key other times [] n h = ground arith
has_key-store key other times ((k, old) ∷ events) n h =
    ground (arith, has_key-store key other times events n)

store-IsDict :
    (key : Text) (times : List ℕ) (events : Events)
    → IsDict events
    → IsDict (store key times events)
store-IsDict key times [] d = (refl, tt)
store-IsDict key times ((k, old) ∷ events) d = elim (Bool-cases (text_eq key k)) [
  | inl e ↦ rw e d
  | inr e ↦ rw e (
    has_key-store key k times events (text_eq_other key k e) d.0,
    store-IsDict key times events d.1,
  )
]

-- The deques hold the requests that still count, and never more than the limit.
record Tracks (limit window : ℕ) (events : Events) (history : List (Text × ℕ)) (now : ℕ)
    : Type 0 where
  dict : IsDict events
  short : (key : Text) → length (events_of key events) ≤ limit
  same :
      (key : Text) (later : ℕ)
      → now ≤ later
      → count window later (events_of key events) ≡ count window later (times_of key history)

deny-eq-ok :
    (window now : ℕ) (key : Text) (times : List ℕ) (events events' : Events) (passes : Bool)
    (retry : ℕ)
    → deny window now key times events ≡ ok ((passes, retry), events')
    → (passes ≡ false) × (events' ≡ store key times events)
deny-eq-ok window now key [] events events' passes retry h = cc
deny-eq-ok window now key (t ∷ times) events events' passes retry h = (cc (sym h), cc (sym h))

abbrev left_times : ℕ → Text → ℕ → Events → List ℕ
left_times window key now events = drop_old window now (events_of key events)

module _ (limit window : ℕ) (key : Text) (now : ℕ) (events events' : Events) (passes : Bool)
    (retry : ℕ) where
  allow-eq-ok :
      allow limit window key now events ≡ ok ((passes, retry), events')
      → ((passes ≡ true)
          × (leb limit (length (left_times window key now events)) ≡ false)
          × (events' ≡ prune (store key (left_times window key now events ++ now ∷ []) events)))
        ⊎ ((passes ≡ false) × (events' ≡ store key (left_times window key now events) events))
  unfolding allow
  allow-eq-ok h = elim (Bool-cases (leb limit (length (left_times window key now events)))) [
    | inl full ↦
        let h' = rw (allow, full) at h in
        inr (
          deny-eq-ok window now key (left_times window key now events) events events' passes retry
            h')
    | inr free ↦ let h' = rw (allow, free) at h in inl (cc (sym h'), free, cc (sym h'))
  ]

module _ (limit window : ℕ) (events events' : Events) (history : List (Text × ℕ)) (before : ℕ)
    (key : Text) (now retry : ℕ) (le : before ≤ now)
    (t : Tracks limit window events history before) where
  short-store :
      (times : List ℕ) (k : Text)
      → length times ≤ limit
      → length (events_of k (store key times events)) ≤ limit
  short-store times k h =
      rw (events_of-store key k times events)
        (elim (Bool-cases (text_eq k key)) [ inl e ↦ rw e h | inr e ↦ rw e (t.short k) ])

  count_left :
      (k : Text) (later : ℕ)
      → text_eq k key ≡ true
      → now ≤ later
      → count window later (left_times window key now events)
        ≡ count window later (times_of k history)
  count_left k later e q =
      let same : k ≡ key = text_eq→eq k key e in
      rw same
        (count-drop_old window now later (events_of key events) q ∙ t.same key later (omega arith))

  Tracks-passed :
      allow limit window key now events ≡ ok ((true, retry), events')
      → Tracks limit window events' ((key, now) ∷ history) now
  Tracks-passed h = elim (allow-eq-ok limit window key now events events' true retry h) [
    | inr (never, _) ↦ absurd (cc never)
    | inl (_, free, left) ↦
        let times = left_times window key now events ++ now ∷ [] in
        let d = store-IsDict key times events t.dict in
        let short : length times ≤ limit =
          ground (arith, length-append (left_times window key now events) (now ∷ [])) in
        rw left (record {
          dict = prune-IsDict (store key times events) d;
          short =
              λ k. rw (events_of-prune k (store key times events) d) (short-store times k short);
          same = λ k later q.
              rw (events_of-prune k (store key times events) d, events_of-store key k times events)
                (elim (Bool-cases (text_eq k key)) [
                  | inl e ↦ rw e (
                      count-append window later (left_times window key now events) now
                      ∙ ap (λ (n : ℕ). (if ltb later (now + window) then 1 else 0) + n)
                          (count_left k later e q))
                  | inr e ↦ rw e (t.same k later (omega arith))
                ]);
        })
  ]

  Tracks-refused :
      allow limit window key now events ≡ ok ((false, retry), events')
      → Tracks limit window events' history now
  Tracks-refused h = elim (allow-eq-ok limit window key now events events' false retry h) [
    | inl (never, _, _) ↦ absurd (cc never)
    | inr (_, left) ↦
        let times = left_times window key now events in
        rw left (record {
          dict = store-IsDict key times events t.dict;
          short = λ k.
              short-store times k
                (omega (arith, length-drop_old window now (events_of key events), t.short key));
          same = λ k later q.
              rw (events_of-store key k times events) (elim (Bool-cases (text_eq k key)) [
                | inl e ↦ rw e (count_left k later e q)
                | inr e ↦ rw e (t.same k later (omega arith))
              ]);
        })
  ]

Served-Tracks :
    {limit window : ℕ} {events : Events} {history : List (Text × ℕ)} {now : ℕ}
    → Served limit window events history now
    → Tracks limit window events history now
Served-Tracks start = record { dict = tt; short = λ k. omega arith; same = λ k later q. refl }
Served-Tracks {limit} {window}
      (passed {events} {events'} {history} {before} {retry} key now s le h) =
    Tracks-passed limit window events events' history before key now retry le (Served-Tracks s) h
Served-Tracks {limit} {window}
      (refused {events} {events'} {history} {before} {retry} key now s le h) =
    Tracks-refused limit window events events' history before key now retry le (Served-Tracks s) h

-- However the calls come, on a clock that does not go back, of one key never more requests than the
-- limit have been let through in the window before the time of a call.
pub Served-limited :
    (limit window : ℕ) (events : Events) (history : List (Text × ℕ)) (now : ℕ)
    → Served limit window events history now
    → (key : Text) → count window now (times_of key history) ≤ limit
Served-limited limit window events history now s key =
    let t = Served-Tracks s in
    omega (
      arith,
      t.same key now (omega arith),
      t.short key,
      count-le-length window now (events_of key events),
    )
