-- ===== src/Imports/Commit.antt =====
-- What `commit` of backend/app/services/imports.py makes of the items.
use shiftmate_web.Prelude.{
  ℕ, ◌+◌, ◌≡◌, refl, sym, subst, ap, ◌∙◌, true, false, ◌&&◌, none, some, List, [], ◌∷◌, ◌++◌, arith,
  ◌==◌, All, any, length, filter, map, if◌then◌else◌, Bool-cases, Option-cases, inl, inr,
}
use shiftmate_web.Prelude.Result.{Result, ok, ◌>>=◌, or_raise, >>=-eq-ok, or_raise-eq-ok}
use shiftmate_web.Database.{
  Db, Uuid, ItemRow, ImportRow, review, committed, NewShift, ShiftRecord, import_source,
}
use shiftmate_web.Database.Rows.{select, update}
use shiftmate_web.Shifts.{insert_shift}
use shiftmate_web.Shifts.Deletion.{Pairwise}
use shiftmate_web.Imports.Normalize.{ImportError, constraint_violated, is_valid}
use shiftmate_web.Imports.Tables.{
  import_id, select_import, is_due, is_open, to_new_shift, commit_rows, committed_ids, in_review,
  commit_items, change_import,
}
use shiftmate_web.Imports.{commit, commit_checked, get_import}

-- The shifts that an item has become or becomes.
abbrev pub due_items : List ItemRow → List ItemRow
due_items = filter is_due

-- The shift that an item becomes: the item's day, times, break, type and notes, under the id that is
-- drawn for it.
pub record IsShiftOf (mint : Uuid → Uuid) (now : ℕ) (x : ItemRow) (s : ShiftRecord) : Type 0 where
  pub id : s.id ≡ mint x.id
  pub work_date : x.work_date ≡ some s.work_date
  pub start_at : x.start_at ≡ some s.start_at
  pub end_at : x.end_at ≡ some s.end_at
  pub break_minutes : x.break_minutes ≡ some s.break_minutes
  pub shift_type : x.shift_type ≡ some s.shift_type
  pub notes : s.notes ≡ x.notes
  pub source : s.source ≡ import_source
  pub created_at : s.created_at ≡ now
  pub updated_at : s.updated_at ≡ now

-- Rows inserted one after the other, each in front of those that are there.
abbrev pub inserted_in : List ShiftRecord → List ShiftRecord → List ShiftRecord
inserted_in [] rows = rows
inserted_in (s ∷ new) rows = inserted_in new (s ∷ rows)

-- What the loop has done: one shift for each item that is due, in their order, and nothing else.
record Committed (mint : Uuid → Uuid) (now : ℕ) (items rows : List ItemRow) (ids : List Uuid)
    (db db' : Db) : Type 0 where
  new_shifts : List ShiftRecord
  each_due : Pairwise (IsShiftOf mint now) (due_items items) new_shifts
  shifts : db'.shifts ≡ inserted_in new_shifts db.shifts
  in_order : ids ≡ map (λ x. mint x.id) (due_items items)
  grown : length db'.shifts ≡ length db.shifts + length ids
  same_imports : db'.imports ≡ db.imports
  same_profile : db'.profile ≡ db.profile
  linked : All (λ x. is_open x ≡ true) items → committed_ids rows ≡ ids

open_none : (x : ItemRow) → is_open x ≡ true → x.committed_shift_id ≡ none
open_none x h = elim (Option-cases x.committed_shift_id) [ inl e ↦ e | inr (s, e) ↦ ground arith ]

abbrev with_id :
    (Uuid → Uuid)
    → ItemRow
    → List Uuid × List ItemRow × Db
    → Result ImportError (List Uuid × List ItemRow × Db)
with_id mint x (ids, rows, db) =
    ok (mint x.id ∷ ids, record x { committed_shift_id = some (mint x.id) } ∷ rows, db)

-- The loop's round for an item that is due.
abbrev with_shift :
    (Uuid → Uuid)
    → ℕ
    → ItemRow
    → List ItemRow
    → Db
    → NewShift
    → Result ImportError (List Uuid × List ItemRow × Db)
with_shift mint now x xs db new =
    commit_rows mint now xs (insert_shift import_source (mint x.id) now new db).1 >>= with_id mint x

abbrev as_it_is :
    ItemRow → List Uuid × List ItemRow × Db → Result ImportError (List Uuid × List ItemRow × Db)
as_it_is x (ids, rows, db) = ok (ids, x ∷ rows, db)

module _ (mint : Uuid → Uuid) (now : ℕ) (x : ItemRow) (xs : List ItemRow) (db : Db) where
  commit_rows-due :
      is_due x ≡ true
      → commit_rows mint now (x ∷ xs) db
        ≡ or_raise (to_new_shift x) constraint_violated >>= with_shift mint now x xs db
  unfolding commit_rows
  commit_rows-due due = rw (commit_rows, due)

  commit_rows-skipped :
      is_due x ≡ false
      → commit_rows mint now (x ∷ xs) db ≡ commit_rows mint now xs db >>= as_it_is x
  unfolding commit_rows
  commit_rows-skipped skipped = rw (commit_rows, skipped)

to_new_shift-IsShiftOf :
    (mint : Uuid → Uuid) (now : ℕ) (x : ItemRow) (new : NewShift) (db : Db)
    → to_new_shift x ≡ some new
    → IsShiftOf mint now x (insert_shift import_source (mint x.id) now new db).0
unfolding insert_shift
to_new_shift-IsShiftOf mint now x new db h = ground arith

Committed-due :
    (mint : Uuid → Uuid) (now : ℕ) (x : ItemRow) (xs : List ItemRow) (new : NewShift) (db : Db)
    {ids : List Uuid} {rows : List ItemRow} {db' : Db}
    → is_due x ≡ true
    → to_new_shift x ≡ some new
    → Committed mint now xs rows ids (insert_shift import_source (mint x.id) now new db).1 db'
    → Committed mint now
        (x ∷ xs)
        (record x { committed_shift_id = some (mint x.id) } ∷ rows)
        (mint x.id ∷ ids)
        db
        db'
unfolding insert_shift
Committed-due mint now x xs new db due values c = record {
  new_shifts = (insert_shift import_source (mint x.id) now new db).0 ∷ c.new_shifts;
  each_due = rw due (to_new_shift-IsShiftOf mint now x new db values, c.each_due);
  shifts = c.shifts;
  in_order = rw due (ap (λ is. mint x.id ∷ is) c.in_order);
  grown = omega (arith, c.grown);
  same_imports = c.same_imports;
  same_profile = c.same_profile;
  linked = λ o. ap (λ is. mint x.id ∷ is) (c.linked o.1);
}

Committed-skipped :
    (mint : Uuid → Uuid) (now : ℕ) (x : ItemRow) (xs : List ItemRow) (db : Db) {ids : List Uuid}
    {rows : List ItemRow} {db' : Db}
    → is_due x ≡ false
    → Committed mint now xs rows ids db db'
    → Committed mint now (x ∷ xs) (x ∷ rows) ids db db'
Committed-skipped mint now x xs db skipped c = record {
  new_shifts = c.new_shifts;
  each_due = rw skipped c.each_due;
  shifts = c.shifts;
  in_order = rw skipped c.in_order;
  grown = c.grown;
  same_imports = c.same_imports;
  same_profile = c.same_profile;
  linked = λ o. rw (open_none x o.0) (c.linked o.1);
}

Committed-moved :
    (mint : Uuid → Uuid) (now : ℕ) (items : List ItemRow) (db : Db)
    {a b : List Uuid × List ItemRow × Db}
    → a ≡ b
    → Committed mint now items a.1 a.0 db a.2
    → Committed mint now items b.1 b.0 db b.2
Committed-moved mint now items db e c =
    subst (λ (p : List Uuid × List ItemRow × Db). Committed mint now items p.1 p.0 db p.2) e c

commit_rows-Committed :
    (mint : Uuid → Uuid) (now : ℕ) (items : List ItemRow) (db : Db) {ids : List Uuid}
    {rows : List ItemRow} {db' : Db}
    → commit_rows mint now items db ≡ ok (ids, rows, db')
    → Committed mint now items rows ids db db'
unfolding commit_rows
commit_rows-Committed mint now [] db {ids} {rows} {db'} h =
    let i : ids ≡ [] = cc h in
    let r : rows ≡ [] = cc h in
    let d : db' ≡ db = cc h in
    rw (i, r, d)
      (record {
        new_shifts = [];
        each_due = tt;
        shifts = refl;
        in_order = refl;
        grown = omega arith;
        same_imports = refl;
        same_profile = refl;
        linked = λ o. refl;
      })
commit_rows-Committed mint now (x ∷ xs) db {ids} {rows} {db'} h = elim (Bool-cases (is_due x)) [
  | inl due ↦
      let h₁ = sym (commit_rows-due mint now x xs db due) ∙ h in
      let (new, values, h₂) =
        or_raise-eq-ok (to_new_shift x) constraint_violated (with_shift mint now x xs db) h₁ in
      let db₁ = (insert_shift import_source (mint x.id) now new db).1 in
      let ((ids₁, rows₁, db₂), e, h₃) =
        >>=-eq-ok (commit_rows mint now xs db₁) (with_id mint x) h₂ in
      Committed-moved mint now (x ∷ xs) db (cc h₃)
        (Committed-due mint now x xs new db due values (commit_rows-Committed mint now xs db₁ e))
  | inr skipped ↦
      let h₁ = sym (commit_rows-skipped mint now x xs db skipped) ∙ h in
      let ((ids₁, rows₁, db₂), e, h₃) = >>=-eq-ok (commit_rows mint now xs db) (as_it_is x) h₁ in
      Committed-moved mint now (x ∷ xs) db (cc h₃)
        (Committed-skipped mint now x xs db skipped (commit_rows-Committed mint now xs db e))
]

-- The import's row after a commit.
abbrev after_commit : ℕ → List ItemRow → ImportRow → ImportRow
after_commit now rows r =
    let r' : ImportRow = record r { items = rows } in
    if in_review r.status then record r' { status = committed; updated_at = now } else r'

select-update :
    (i : Uuid) (f : ImportRow → ImportRow) (rows : List ImportRow) (r : ImportRow)
    → ((q : ImportRow) → (f q).id ≡ q.id)
    → select import_id i rows ≡ some r
    → select import_id i (update import_id i f rows) ≡ some (f r)
select-update i f [] r keeps h = cc
select-update i f (q ∷ rows) r keeps h = elim (Bool-cases (q.id == i)) [
  | inl here ↦
      let same : q ≡ r = ground arith in
      let here' : ((f q).id == i) ≡ true = rw (keeps q) here in
      rw here (rw here' (ap (λ p. some (f p)) same))
  | inr there ↦ rw there (rw there (select-update i f rows r keeps (ground arith)))
]

after_commit-id :
    (now : ℕ) (rows : List ItemRow) (q : ImportRow) → (after_commit now rows q).id ≡ q.id
after_commit-id now rows q = ground arith

committed_ids_open :
    (items : List ItemRow) → All (λ x. is_open x ≡ true) items → committed_ids items ≡ []
committed_ids_open [] o = refl
committed_ids_open (x ∷ xs) o = rw (open_none x o.0) (committed_ids_open xs o.1)

-- What `commit` returns from the loop's result.
abbrev finished :
    Uuid → ℕ → ImportRow → List Uuid × List ItemRow × Db → Result ImportError (List Uuid × Db)
finished i now r (ids, rows, db) =
    ok (committed_ids r.items ++ ids, change_import i (after_commit now rows) db)

commit-eq-ok :
    (i : Uuid) (mint : Uuid → Uuid) (now : ℕ) (db : Db) (r : ImportRow) {ids : List Uuid} {db' : Db}
    → select_import i db ≡ some r
    → r.status ≡ review
    → commit i mint now db ≡ ok (ids, db')
    → commit_rows mint now r.items db >>= finished i now r ≡ ok (ids, db')
unfolding commit get_import commit_checked commit_items
commit-eq-ok i mint now db r found reviewed h =
    elim (Bool-cases (any (λ x. x.confirmed && is_valid x.validation_status) r.items)) [
      | inl some_confirmed ↦ rw (found, reviewed, some_confirmed) at h
      | inr none_confirmed ↦ absurd (let e = rw (found, reviewed, none_confirmed) at h in cc e)
    ]

commit_again :
    (i : Uuid) (mint : Uuid → Uuid) (now before : ℕ) (rows : List ItemRow) (r : ImportRow) (db : Db)
    → r.status ≡ review
    → commit_checked i mint now (after_commit before rows r) db ≡ ok (committed_ids rows, db)
unfolding commit_checked
commit_again i mint now before rows r db reviewed = rw reviewed

-- A commit of an import in review none of whose items is committed yet creates one shift for each
-- item that is confirmed and valid, in the order of the items, with the item's day, times, break,
-- type and notes and as from an import, keeps the other shifts, returns the ids of the new ones, and
-- can be repeated: a second commit returns the same ids and changes nothing.
pub commit_once :
    (i : Uuid) (mint mint' : Uuid → Uuid) (now now' : ℕ) (db : Db) (r : ImportRow) {ids : List Uuid}
    {db' : Db}
    → select_import i db ≡ some r
    → r.status ≡ review
    → All (λ x. is_open x ≡ true) r.items
    → commit i mint now db ≡ ok (ids, db')
    → (new_shifts : List ShiftRecord) × Pairwise (IsShiftOf mint now) (due_items r.items) new_shifts
      × (db'.shifts ≡ inserted_in new_shifts db.shifts)
      × (ids ≡ map (λ x. mint x.id) (due_items r.items))
      × (length db'.shifts ≡ length db.shifts + length ids)
      × (commit i mint' now' db' ≡ ok (ids, db'))
unfolding commit get_import commit_checked select_import
commit_once i mint mint' now now' db r {ids} {db'} found reviewed opened h =
    let ((ids₁, rows, db₁), e, h₁) =
      >>=-eq-ok (commit_rows mint now r.items db) (finished i now r)
        (commit-eq-ok i mint now db r found reviewed h) in
    let c = commit_rows-Committed mint now r.items db e in
    let none_yet = committed_ids_open r.items opened in
    let left : (ids₁, change_import i (after_commit now rows) db₁) ≡ (ids, db') =
      (let h₂ = rw none_yet at h₁ in cc h₂) in
    let again : select import_id i (update import_id i (after_commit now rows) db₁.imports)
        ≡ some (after_commit now rows r) =
      rw c.same_imports
        (select-update i (after_commit now rows) db.imports r (after_commit-id now rows) found) in
    subst
      (λ (p : List Uuid × Db).
        (new_shifts : List ShiftRecord) × Pairwise (IsShiftOf mint now) (due_items r.items)
          new_shifts
        × (p.1.shifts ≡ inserted_in new_shifts db.shifts)
        × (p.0 ≡ map (λ x. mint x.id) (due_items r.items))
        × (length p.1.shifts ≡ length db.shifts + length p.0)
        × (commit i mint' now' p.1 ≡ ok p))
      left
      (
        c.new_shifts,
        c.each_due,
        c.shifts,
        c.in_order,
        c.grown,
        rw again (
            commit_again i mint' now' now rows r (change_import i (after_commit now rows) db₁)
              reviewed
            ∙ ap (λ is. ok (is, change_import i (after_commit now rows) db₁)) (c.linked opened)),
      )
