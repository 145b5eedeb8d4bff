-- ===== src/Shifts/Stored.antt =====
-- What the operations of backend/app/services/shifts.py keep true of the stored shifts.
use shiftmate_web.Prelude.{
  ℕ, ◌+◌, ◌*◌, ◌≤◌, ◌<◌, ◌≡◌, subst, true, false, Option, some, List, [], ◌∷◌, String, arith, ◌==◌,
  All, if◌then◌else◌, Bool-cases, inl, inr,
}
use shiftmate_web.Prelude.Result.{ok, or_raise, or_raise-eq-ok, map_error-eq-ok}
use shiftmate_web.Prelude.Text.{Text, is_blank}
use shiftmate_web.Domain.Zone.{Zones, Datetime, aware, date_of, us_per_minute}
use shiftmate_web.Domain.Schedule.{Shift, BreakValue, minutes, make_shift, work_date}
use shiftmate_web.Domain.Schedule.Validation.{make_shift_iff}
use shiftmate_web.Database.{Db, Uuid, ShiftRecord, NewShift, manual}
use shiftmate_web.Database.Rows.{select, update, delete}
use shiftmate_web.Shifts.{
  profile_not_found, shift_not_found, invalid_shift, shift_id, get_profile_timezone, insert_shift,
  rewritten, replace_shift, CreateShiftCommand, UpdateShiftCommand, to_new_shift, patched,
  create_shift, update_shift, get_or, type_or,
}

-- A stored shift passes the rules again, and its work date is that of its start in the zone.
pub record IsStored (zones : Zones) (timezone : String) (s : ShiftRecord) : Type 0 where
  pub typed : is_blank s.shift_type ≡ false
  pub a_day : s.break_minutes ≤ 1440
  pub known : zones.known timezone ≡ true
  pub ordered : s.start_at < s.end_at
  pub fits : s.start_at + s.break_minutes * us_per_minute ≤ s.end_at
  pub dated : s.work_date ≡ date_of (zones.to_local timezone s.start_at)

module _ (zones : Zones) where
  rewritten-IsStored :
      (st en : Datetime) (br : BreakValue) (timezone : String) (ty : Text) (v : Shift) (now : ℕ)
      (notes : Option Text) (s : ShiftRecord)
      → make_shift zones st en br timezone ty ≡ ok v
      → IsStored zones timezone (rewritten now (to_new_shift zones notes v) s)
  unfolding work_date
  rewritten-IsStored st en br timezone ty v now notes s h =
      let a = (make_shift_iff zones st en br timezone ty v).0 h in
      record {
        typed = rw a.same_type a.typed;
        a_day = a.a_day;
        known = a.zone;
        ordered = a.ordered;
        fits = a.fits;
        dated = rw a.same_zone;
      }

  All-update :
      (P : ShiftRecord → Type 0) (i : Uuid) (f : ShiftRecord → ShiftRecord)
      (rows : List ShiftRecord)
      → ((s : ShiftRecord) → P (f s))
      → All P rows
      → All P (update shift_id i f rows)
  All-update P i f [] new a = tt
  All-update P i f (s ∷ rows) new a = elim (Bool-cases (s.id == i)) [
    | inl here ↦ rw here (new s, All-update P i f rows new a.1)
    | inr there ↦ rw there (a.0, All-update P i f rows new a.1)
  ]

  All-delete :
      (P : ShiftRecord → Type 0) (i : Uuid) (rows : List ShiftRecord)
      → All P rows
      → All P (delete shift_id i rows)
  All-delete P i [] a = tt
  All-delete P i (s ∷ rows) a = elim (Bool-cases (s.id == i)) [
    | inl here ↦ rw here (All-delete P i rows a.1)
    | inr there ↦ rw there (a.0, All-delete P i rows a.1)
  ]

  replace_shift-left :
      (i : Uuid) (now : ℕ) (new : NewShift) (db : Db) {row : ShiftRecord} {db' : Db}
      → or_raise (replace_shift i now new db) shift_not_found ≡ ok (row, db')
      → db' ≡ record db { shifts = update shift_id i (rewritten now new) db.shifts }
  unfolding replace_shift
  replace_shift-left i now new db h = ground arith

  -- The invariant, for the zone of the profile.
  abbrev pub AllStored : String → Db → Type 0
  AllStored timezone db =
      All (IsStored zones timezone) db.shifts × (get_profile_timezone db ≡ some timezone)

  module _ (timezone : String) (db : Db) (all_stored : AllStored timezone db) where
    -- Where every stored shift keeps the rules and has the work date of its start in the zone of
    -- the profile, every one still does after a shift is created.
    pub create_shift-AllStored :
        (new_id now : ℕ) (command : CreateShiftCommand) {row : ShiftRecord} {db' : Db}
        → create_shift zones new_id now command db ≡ ok (row, db')
        → AllStored timezone db'
    unfolding create_shift insert_shift
    create_shift-AllStored new_id now command {row} {db'} h =
        let (tz, here, h₁) = or_raise-eq-ok (get_profile_timezone db) profile_not_found _ h in
        let tz' : tz ≡ timezone = ground arith in
        let (v, made, h₂) =
          map_error-eq-ok invalid_shift
            (make_shift zones command.start_at command.end_at command.break_minutes tz
              command.shift_type)
            (λ v. ok (insert_shift manual new_id now (to_new_shift zones command.notes v) db)) h₁ in
        let new = to_new_shift zones command.notes v in
        let left : insert_shift manual new_id now new db ≡ (row, db') = cc h₂ in
        let stored =
          rewritten-IsStored command.start_at command.end_at command.break_minutes tz
            command.shift_type v now command.notes (insert_shift manual new_id now new db).0 made in
        subst (λ (p : ShiftRecord × Db). AllStored timezone p.1) left
          (
            (
              subst (λ t. IsStored zones t (insert_shift manual new_id now new db).0) tz' stored,
              all_stored.0,
            ),
            all_stored.1,
          )

    -- Where every stored shift keeps the rules and has the work date of its start in the zone of
    -- the profile, every one still does after an update.
    pub update_shift-AllStored :
        (i now : ℕ) (command : UpdateShiftCommand) {row : ShiftRecord} {db' : Db}
        → update_shift zones i now command db ≡ ok (row, db')
        → AllStored timezone db'
    unfolding update_shift
    update_shift-AllStored i now command {row} {db'} h =
        let (old, found, h₁) = or_raise-eq-ok (select shift_id i db.shifts) shift_not_found _ h in
        let (tz, here, h₂) = or_raise-eq-ok (get_profile_timezone db) profile_not_found _ h₁ in
        let tz' : tz ≡ timezone = ground arith in
        let notes = if command.notes_supplied then command.notes else old.notes in
        let (v, made, h₃) =
          map_error-eq-ok invalid_shift (patched zones command old tz)
            (λ v. or_raise (replace_shift i now (to_new_shift zones notes v) db) shift_not_found)
            h₂ in
        let new = to_new_shift zones notes v in
        rw (replace_shift-left i now new db h₃) (
          All-update (IsStored zones timezone) i (rewritten now new) db.shifts
              (λ s.
                subst (λ t. IsStored zones t (rewritten now new s)) tz'
                  (rewritten-IsStored (get_or command.start_at (aware old.start_at))
                    (get_or command.end_at (aware old.end_at))
                    (get_or command.break_minutes (minutes old.break_minutes)) tz
                    (type_or command.shift_type old.shift_type) v now notes s
                    (unfold patched in made)))
              all_stored.0,
          all_stored.1,
        )
