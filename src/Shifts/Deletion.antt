-- ===== src/Shifts/Deletion.antt =====
-- What the deletion of a shift, backend/app/services/shifts.py, leaves of it elsewhere.
use shiftmate_web.Prelude.{◌≡◌, refl, true, false, List, [], ◌∷◌, arith, map}
use shiftmate_web.Prelude.Result.{ok}
use shiftmate_web.Database.{Db, Uuid, ShiftRecord, SyncRow, pending_delete}
use shiftmate_web.Database.Rows.{delete, has_id}
use shiftmate_web.Shifts.{
  shift_id, mark_sync, unlink_sync, remove_shift, delete_shift, is_id, is_deleted,
}

-- A row of `calendar_sync_records` and what becomes of it: none names the shift, a row that did is
-- to be deleted at the provider or has been, and every other row is as it was.
pub record Detached (i : Uuid) (r r' : SyncRow) : Type 0 where
  pub same_id : r'.id ≡ r.id
  pub same_event : r'.external_event_id ≡ r.external_event_id
  pub unnamed : is_id r'.shift_id i ≡ false
  pub marked : is_id r.shift_id i ≡ true → is_deleted r.status ≡ false → r'.status ≡ pending_delete
  pub gone : is_deleted r.status ≡ true → r'.status ≡ r.status
  pub others : is_id r.shift_id i ≡ false → r' ≡ r

abbrev pub Pairwise : {A B : Type 0} → (A → B → Type 0) → List A → List B → Type 0
Pairwise R [] [] = Unit
Pairwise R [] (y ∷ ys) = ⊥
Pairwise R (x ∷ xs) [] = ⊥
Pairwise R (x ∷ xs) (y ∷ ys) = R x y × Pairwise R xs ys

Detached-row : (i : Uuid) (r : SyncRow) → Detached i r (unlink_sync i (mark_sync i r))
unfolding unlink_sync mark_sync
Detached-row i r = ground arith

Detached-rows :
    (i : Uuid) (rows : List SyncRow)
    → Pairwise (Detached i) rows (map (unlink_sync i) (map (mark_sync i) rows))
Detached-rows i [] = tt
Detached-rows i (r ∷ rows) = (Detached-row i r, Detached-rows i rows)

has_id-delete :
    (i : Uuid) (rows : List ShiftRecord) → has_id shift_id i (delete shift_id i rows) ≡ false
has_id-delete i [] = refl
has_id-delete i (s ∷ rows) = ground (arith, has_id-delete i rows)

-- A deletion that succeeds is of a stored shift; afterwards it is not stored, and every row of the
-- calendar's records that named it names no shift and is marked for deletion, unless it already was
-- deleted, while the other rows stay.
pub delete_shift-Detached :
    (i : Uuid) (db : Db) {u : Unit {0}} {db' : Db}
    → delete_shift i db ≡ ok (u, db')
    → (has_id shift_id i db.shifts ≡ true)
      × (has_id shift_id i db'.shifts ≡ false)
      × Pairwise (Detached i) db.sync_rows db'.sync_rows
unfolding delete_shift remove_shift
delete_shift-Detached i db {u} {db'} h =
    let stored : has_id shift_id i db.shifts ≡ true = ground arith in
    let shifts : db'.shifts ≡ delete shift_id i db.shifts = ground arith in
    let rows : db'.sync_rows ≡ map (unlink_sync i) (map (mark_sync i) db.sync_rows) =
      ground arith in
    (stored, rw shifts (has_id-delete i db.shifts), rw rows (Detached-rows i db.sync_rows))
