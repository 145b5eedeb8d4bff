-- ===== src/Imports/Valid.antt =====
-- What a valid item of backend/app/services/imports.py has been checked for, and what becomes of
-- an item whose end is not after its start.
use shiftmate_web.Prelude.{
  ℕ, ◌+◌, ◌≤◌, ◌≡◌, refl, sym, subst, ◌∙◌, true, false, ◌||◌, Option, none, some, List, [], ◌∷◌,
  ◌++◌, String, arith, ltb, if◌then◌else◌, Bool-cases, inl, inr,
}
use shiftmate_web.Prelude.Result.{Result, ok, raise, Result-cases}
use shiftmate_web.Prelude.Text.{Text, text_eq_refl}
use shiftmate_web.Domain.Zone.{Date, Zones, aware}
use shiftmate_web.Domain.Schedule.{ScheduleError, Shift, minutes, make_shift}
use shiftmate_web.Domain.Schedule.Validation.{make_shift_iff}
use shiftmate_web.Database.{Uuid}
use shiftmate_web.Imports.Normalize.{
  constraint_violated, ExtractedShift, NewImportItem, is_valid, has_warning, ambiguous_local_time,
  nonexistent_local_time, combine, is_ambiguous, is_nonexistent, time_warnings, judge,
  normalize_timed, normalize_parts, normalize_extracted, first_warnings,
}
use shiftmate_web.Imports.Tables.{insert_items}

has_warning-append :
    (w : Text) (xs ys : List Text) → has_warning w ys ≡ true → has_warning w (xs ++ ys) ≡ true
has_warning-append w [] ys h = h
has_warning-append w (x ∷ xs) ys h = ground (arith, has_warning-append w xs ys h)

has_warning-first :
    (w : Text) (xs ys : List Text) → has_warning w xs ≡ true → has_warning w (xs ++ ys) ≡ true
has_warning-first w [] ys h = cc
has_warning-first w (x ∷ xs) ys h = ground (arith, has_warning-first w xs ys)

module _ (zones : Zones) (timezone : String) where
  warned_ambiguous :
      (warnings : List Text) (start end : ℕ)
      → is_ambiguous zones timezone start || is_ambiguous zones timezone end ≡ true
      → has_warning ambiguous_local_time (time_warnings zones timezone warnings start end) ≡ true
  unfolding time_warnings
  warned_ambiguous warnings start end h =
      let new =
        has_warning-append ambiguous_local_time warnings (ambiguous_local_time ∷ [])
          (text_eq_refl ambiguous_local_time) in
      elim (Bool-cases (is_nonexistent zones timezone start || is_nonexistent zones timezone end)) [
        | inl e ↦
            rw (h, e)
              (has_warning-first ambiguous_local_time (warnings ++ ambiguous_local_time ∷ [])
                (nonexistent_local_time ∷ []) new)
        | inr e ↦ rw (h, e) new
      ]

  warned_nonexistent :
      (warnings : List Text) (start end : ℕ)
      → is_nonexistent zones timezone start || is_nonexistent zones timezone end ≡ true
      → has_warning nonexistent_local_time (time_warnings zones timezone warnings start end) ≡ true
  unfolding time_warnings
  warned_nonexistent warnings start end h = rw h (
      has_warning-append nonexistent_local_time
        (if is_ambiguous zones timezone start || is_ambiguous zones timezone end
          then warnings ++ ambiguous_local_time ∷ []
          else warnings)
        (nonexistent_local_time ∷ []) (text_eq_refl nonexistent_local_time))

  valid_judge :
      (warnings : List Text) (r : Result ScheduleError Shift)
      → is_valid (judge zones timezone warnings r).0 ≡ true
      → (s : Shift) × (r ≡ ok s)
        × (has_warning ambiguous_local_time warnings ≡ false)
        × (has_warning nonexistent_local_time warnings ≡ false)
  valid_judge warnings (raise e) h = cc
  valid_judge warnings (ok s) h = elim (Bool-cases (has_warning ambiguous_local_time warnings)) [
    | inl a ↦ absurd (let e = rw a at h in cc e)
    | inr a ↦ elim (Bool-cases (has_warning nonexistent_local_time warnings)) [
      | inl b ↦ absurd (let e = rw (a, b) at h in cc e)
      | inr b ↦ (s, refl, a, b)
    ]
  ]

  -- What is known of an item that is valid, with its date and its times.
  pub record IsChecked (item : ExtractedShift) (date : Option Date) (start end : Option ℕ)
      (n : NewImportItem) : Type 0 where
    pub day : Date
    pub from : ℕ
    pub to : ℕ
    pub dated : date ≡ some day
    pub begins : start ≡ some from
    pub finishes : end ≡ some to
    pub start_at : n.start_at ≡ some (zones.to_utc timezone (combine day from) false)
    pub end_at :
        n.end_at
        ≡ some (
            zones.to_utc timezone
              (combine (day + (if item.crosses_midnight then 1 else 0)) to)
              false)
    pub shift : Shift
    pub accepted :
        make_shift zones
          (aware (zones.to_utc timezone (combine day from) false))
          (aware (
            zones.to_utc timezone
              (combine (day + (if item.crosses_midnight then 1 else 0)) to)
              false))
          (minutes item.break_minutes)
          timezone
          item.shift_type
        ≡ ok shift
    pub unambiguous :
        is_ambiguous zones timezone (combine day from)
          || is_ambiguous zones timezone
              (combine (day + (if item.crosses_midnight then 1 else 0)) to)
        ≡ false
    pub existing :
        is_nonexistent zones timezone (combine day from)
          || is_nonexistent zones timezone
              (combine (day + (if item.crosses_midnight then 1 else 0)) to)
        ≡ false

  valid_timed :
      (item : ExtractedShift) (warnings : List Text) (day : Date) (from to : ℕ)
      → is_valid (normalize_timed zones timezone item warnings day from to).validation_status ≡ true
      → IsChecked item
          (some day)
          (some from)
          (some to)
          (normalize_timed zones timezone item warnings day from to)
  unfolding normalize_timed
  valid_timed item warnings day from to h =
      let last = combine (day + (if item.crosses_midnight then 1 else 0)) to in
      let (s, e, a, b) =
        valid_judge (time_warnings zones timezone warnings (combine day from) last) _ h in
      record {
        day = day;
        from = from;
        to = to;
        dated = refl;
        begins = refl;
        finishes = refl;
        start_at = refl;
        end_at = refl;
        shift = s;
        accepted = e;
        unambiguous =
            elim (Bool-cases (
              is_ambiguous zones timezone (combine day from) || is_ambiguous zones timezone last)) [
                | inl c ↦
                    absurd (
                      let w = sym (warned_ambiguous warnings (combine day from) last c) ∙ a in cc w)
                | inr c ↦ c
              ];
        existing =
            elim (Bool-cases (
              is_nonexistent zones timezone (combine day from)
              || is_nonexistent zones timezone last)) [
                | inl c ↦ absurd (
                    let w = sym (warned_nonexistent warnings (combine day from) last c) ∙ b in cc w)
                | inr c ↦ c
              ];
      }

  valid_parts :
      (item : ExtractedShift) (warnings : List Text) (date : Option Date) (start end : Option ℕ)
      {n : NewImportItem}
      → normalize_parts zones timezone item warnings date start end ≡ ok n
      → is_valid n.validation_status ≡ true
      → IsChecked item date start end n
  unfolding normalize_parts
  valid_parts item warnings (some day) (some from) (some to) {n} h v =
      let made : normalize_timed zones timezone item warnings day from to ≡ n = ground arith in
      subst (IsChecked item (some day) (some from) (some to)) made
        (valid_timed item warnings day from to (rw made v))
  valid_parts item warnings (some day) (some from) none h v = ground arith
  valid_parts item warnings (some day) none end h v = ground arith
  valid_parts item warnings none start end h v = ground arith

  inverted_shift :
      (start end pause : ℕ) (shift_type : Text)
      → end ≤ start
      → (e : ScheduleError) × (make_shift zones
            (aware start)
            (aware end)
            (minutes pause)
            timezone
            shift_type
          ≡ raise e)
  inverted_shift start end pause shift_type le =
      elim (Result-cases
        (make_shift zones (aware start) (aware end) (minutes pause) timezone shift_type)) [
          | inl refused ↦ refused
          | inr (s, e) ↦
              let a =
                (make_shift_iff zones (aware start) (aware end) (minutes pause) timezone shift_type
                    s).0
                  e in
              absurd (ground (arith, a.starts, a.ends, a.ordered))
        ]

  inverted_invalid :
      (item : ExtractedShift) (warnings : List Text) (day : Date) (from to : ℕ)
      → zones.to_utc timezone (combine (day + (if item.crosses_midnight then 1 else 0)) to) false
        ≤ zones.to_utc timezone (combine day from) false
      → is_valid (normalize_timed zones timezone item warnings day from to).validation_status
        ≡ false
  unfolding normalize_timed
  inverted_invalid item warnings day from to le =
      let (e, refused) = inverted_shift _ _ item.break_minutes item.shift_type le in rw refused

  inverted_row :
      (item : ExtractedShift) (warnings : List Text) (day : Date) (from to index : ℕ)
      (ids : ℕ → Uuid) (rest : List NewImportItem)
      → zones.to_utc timezone (combine (day + (if item.crosses_midnight then 1 else 0)) to) false
        ≤ zones.to_utc timezone (combine day from) false
      → insert_items ids index (normalize_timed zones timezone item warnings day from to ∷ rest)
        ≡ raise constraint_violated
  unfolding normalize_timed insert_items
  inverted_row item warnings day from to index ids rest le =
      let late : ltb (zones.to_utc timezone (combine day from) false) (
            zones.to_utc timezone (combine (day + (if item.crosses_midnight then 1 else 0)) to)
              false)
          ≡ false =
        ground arith in
      rw late

  -- An item that is found valid has its date and both times, its instants are those of the wall
  -- clock, where neither time is ambiguous or nonexistent, and the rules for a shift accept it.
  pub normalize_extracted-IsChecked :
      (item : ExtractedShift) {n : NewImportItem}
      → normalize_extracted zones timezone item ≡ ok n
      → is_valid n.validation_status ≡ true
      → IsChecked item item.work_date item.start_time item.end_time n
  unfolding normalize_extracted
  normalize_extracted-IsChecked item h v =
      valid_parts item (first_warnings item) item.work_date item.start_time item.end_time h v

  -- An item with a date, both times and a known zone whose end is not after its start is returned
  -- as invalid, with both instants, and the constraint on the table refuses it: no item is stored.
  pub inverted_item_refused :
      (item : ExtractedShift) (day : Date) (from to index : ℕ) (ids : ℕ → Uuid)
      (rest : List NewImportItem)
      → zones.known timezone ≡ true
      → item.work_date ≡ some day
      → item.start_time ≡ some from
      → item.end_time ≡ some to
      → zones.to_utc timezone (combine (day + (if item.crosses_midnight then 1 else 0)) to) false
        ≤ zones.to_utc timezone (combine day from) false
      → (n : NewImportItem) × (normalize_extracted zones timezone item ≡ ok n)
        × (is_valid n.validation_status ≡ false)
        × (insert_items ids index (n ∷ rest) ≡ raise constraint_violated)
  unfolding normalize_extracted normalize_parts insert_items
  inverted_item_refused item day from to index ids rest known dated begins finishes le =
      let n = normalize_timed zones timezone item (first_warnings item) day from to in
      (
        n,
        rw (dated, begins, finishes, known),
        inverted_invalid item (first_warnings item) day from to le,
        inverted_row item (first_warnings item) day from to index ids rest le,
      )
