-- ===== src/Imports/Normalize.antt =====
-- `_normalize_extracted` of backend/app/services/imports.py: what the model has read becomes a row
-- to be reviewed.
use shiftmate_web.Prelude.{
  ℕ, ◌+◌, ◌-◌, ◌*◌, Bool, true, false, not, ◌&&◌, ◌||◌, Option, none, some, List, [], ◌∷◌, ◌++◌,
  String, ◌==◌, any, if◌then◌else◌,
}
use shiftmate_web.Prelude.Result.{Result, ok, raise}
use shiftmate_web.Prelude.Text.{Text, codes, text_eq}
use shiftmate_web.Domain.Zone.{Date, Zones, aware, us_per_day}
use shiftmate_web.Domain.Schedule.{
  ScheduleError, Shift, minutes, make_shift, empty_shift_type, bad_break, end_before_start,
  break_too_long,
}
use shiftmate_web.Database.{ItemStatus, valid, invalid}

-- The codes of `ImportServiceError` and its subclasses; `unknown_zone` is `ZoneInfoNotFoundError`,
-- and `constraint_violated` an `IntegrityError` of the database.
pub data ImportError : Type 0 where
  gemini_not_configured profile_not_found import_not_found import_item_not_found : ImportError
  import_not_reviewable import_item_fields_invalid invalid_item_cannot_be_confirmed : ImportError
  import_not_committable no_confirmed_items profile_timezone_invalid : ImportError
  unknown_zone constraint_violated : ImportError

-- `ExtractedShift` of backend/app/schemas/imports.py; a time is its microseconds of the day.
pub record ExtractedShift : Type 0 where
  pub work_date : Option Date
  pub start_time : Option ℕ
  pub end_time : Option ℕ
  pub crosses_midnight : Bool
  pub break_minutes : ℕ
  pub shift_type : Text
  pub notes : Option Text
  pub needs_review : Bool
  pub warnings : List Text

-- `NewImportItem`; of the raw payload only `needs_review` is read again.
pub record NewImportItem : Type 0 where
  pub needs_review : Bool
  pub work_date : Option Date
  pub start_at : Option ℕ
  pub end_at : Option ℕ
  pub break_minutes : ℕ
  pub shift_type : Text
  pub notes : Option Text
  pub validation_status : ItemStatus
  pub warnings : List Text

abbrev pub is_valid : ItemStatus → Bool
is_valid valid = true
is_valid _ = false

abbrev pub has_warning : Text → List Text → Bool
has_warning w = any (text_eq w)

-- `list(dict.fromkeys(warnings))`: the first of equal ones stays.
unfoldable pub distinct_from : List Text → List Text → List Text
distinct_from seen [] = []
distinct_from seen (w ∷ ws) = elim (has_warning w seen) [
  | true ↦ distinct_from seen ws
  | false ↦ w ∷ distinct_from (w ∷ seen) ws
]

abbrev pub distinct : List Text → List Text
distinct = distinct_from []

abbrev pub marked_for_review : Text
marked_for_review = codes "MODEL_MARKED_FOR_REVIEW"

abbrev pub missing_date_or_time : Text
missing_date_or_time = codes "MISSING_DATE_OR_TIME"

abbrev pub ambiguous_local_time : Text
ambiguous_local_time = codes "AMBIGUOUS_LOCAL_TIME"

abbrev pub nonexistent_local_time : Text
nonexistent_local_time = codes "NONEXISTENT_LOCAL_TIME"

-- `f"INVALID_SHIFT:{error}"`, for the errors that a shift from here can have.
abbrev pub invalid_shift : ScheduleError → Text
invalid_shift empty_shift_type = codes "INVALID_SHIFT:Shift type cannot be empty"
invalid_shift bad_break = codes "INVALID_SHIFT:Break minutes must be an integer between 0 and 1440"
invalid_shift end_before_start = codes "INVALID_SHIFT:Shift end must be after shift start"
invalid_shift break_too_long = codes "INVALID_SHIFT:Break cannot exceed shift duration"
invalid_shift _ = codes "INVALID_SHIFT:"

-- `datetime.combine(day, time, zone)` as a wall-clock reading.
abbrev pub combine : Date → ℕ → ℕ
combine day time = (day - 1) * us_per_day + time

-- The warnings of the model, and its mark.
unfoldable pub first_warnings : ExtractedShift → List Text
first_warnings item =
    let warnings = distinct item.warnings in
    if item.needs_review && not (has_warning marked_for_review warnings)
    then warnings ++ marked_for_review ∷ []
    else warnings

module _ (zones : Zones) (timezone : String) where
  -- `_is_ambiguous`: the two folds have different offsets, so different instants.
  unfoldable pub is_ambiguous : ℕ → Bool
  is_ambiguous wall = not (zones.to_utc timezone wall false == zones.to_utc timezone wall true)

  -- `_is_nonexistent`: the reading does not come back from UTC.
  unfoldable pub is_nonexistent : ℕ → Bool
  is_nonexistent wall = not (zones.to_local timezone (zones.to_utc timezone wall false) == wall)

  -- The warnings before the shift is tried.
  unfoldable pub time_warnings : List Text → ℕ → ℕ → List Text
  unfolding is_ambiguous is_nonexistent
  time_warnings warnings start end =
      let first =
        if is_ambiguous start || is_ambiguous end
        then warnings ++ ambiguous_local_time ∷ []
        else warnings in
      if is_nonexistent start || is_nonexistent end
      then first ++ nonexistent_local_time ∷ []
      else first

  -- The `try` with its `except` and `else`.
  abbrev pub judge : List Text → Result ScheduleError Shift → ItemStatus × List Text
  judge warnings (raise e) = (invalid, warnings ++ invalid_shift e ∷ [])
  judge warnings (ok s) = (
    if has_warning ambiguous_local_time warnings || has_warning nonexistent_local_time warnings
        then invalid
        else valid,
    warnings,
  )

  -- An item with its date and its times.
  unfoldable pub normalize_timed : ExtractedShift → List Text → Date → ℕ → ℕ → NewImportItem
  unfolding time_warnings
  normalize_timed item warnings day start_time end_time =
      let start = combine day start_time in
      let end = combine (day + (if item.crosses_midnight then 1 else 0)) end_time in
      let start_at = zones.to_utc timezone start false in
      let end_at = zones.to_utc timezone end false in
      let judged = judge (time_warnings warnings start end) (
        make_shift zones (aware start_at) (aware end_at) (minutes item.break_minutes) timezone
          item.shift_type) in
      record {
        needs_review = item.needs_review;
        work_date = some day;
        start_at = some start_at;
        end_at = some end_at;
        break_minutes = item.break_minutes;
        shift_type = item.shift_type;
        notes = item.notes;
        validation_status = judged.0;
        warnings = distinct judged.1;
      }

  -- An item that lacks its date or a time.
  abbrev pub normalize_partial : ExtractedShift → List Text → NewImportItem
  normalize_partial item warnings = record {
    needs_review = item.needs_review;
    work_date = item.work_date;
    start_at = none;
    end_at = none;
    break_minutes = item.break_minutes;
    shift_type = item.shift_type;
    notes = item.notes;
    validation_status = invalid;
    warnings = distinct (warnings ++ missing_date_or_time ∷ []);
  }

  -- The tests on the date, the times and the zone.
  unfoldable pub normalize_parts :
      ExtractedShift
      → List Text
      → Option Date
      → Option ℕ
      → Option ℕ
      → Result ImportError NewImportItem
  normalize_parts item warnings (some day) (some start) (some end) =
      if zones.known timezone
      then ok (normalize_timed item warnings day start end)
      else raise profile_timezone_invalid
  normalize_parts item warnings (some day) (some start) none = ok (normalize_partial item warnings)
  normalize_parts item warnings (some day) none end = ok (normalize_partial item warnings)
  normalize_parts item warnings none start end = ok (normalize_partial item warnings)

  -- `_normalize_extracted`.
  unfoldable pub normalize_extracted : ExtractedShift → Result ImportError NewImportItem
  unfolding normalize_parts
  normalize_extracted item =
      normalize_parts item (first_warnings item) item.work_date item.start_time item.end_time
