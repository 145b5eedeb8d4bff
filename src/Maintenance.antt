-- ===== src/Maintenance.antt =====
-- backend/app/services/maintenance.py: the daily job, which a scheduler may start more than once.
-- The job's role sees the rows of every user.
pub mod Runs
pub mod Cleaned
mod Tests
use shiftmate_web.Prelude.{
  ℕ, suc, ◌+◌, ◌*◌, Bool, true, false, not, ◌&&◌, ◌||◌, Option, none, some, List, [], ◌∷◌, ltb,
  ◌==◌, any, filter, find?, length, map, if◌then◌else◌,
}
use shiftmate_web.Prelude.Result.{Result, ok, raise}
use shiftmate_web.Prelude.Text.{Text, codes}
use shiftmate_web.Domain.Zone.{Date, us_per_day, us_per_minute}
use shiftmate_web.Database.{
  PolicyStatus, indexing, policy_failed, ImportRow, ImportStatus, uploaded, extracting, review,
  failed, expired, SyncStatus, pending, sync_failed,
}

pub data JobStatus : Type 0 where
  running succeeded job_failed : JobStatus

-- A row of `scheduled_job_runs` of this job; its key is made of the date.
pub record JobRun : Type 0 where
  pub logical_run_date : Date
  pub status : JobStatus
  pub started_at : ℕ
  pub finished_at : Option ℕ
  pub last_error_code : Option Text

pub record PolicyRow : Type 0 where
  pub status : PolicyStatus
  pub error_code : Option Text
  pub updated_at : ℕ

pub record CalendarRow : Type 0 where
  pub status : SyncStatus
  pub last_error_code : Option Text
  pub updated_at : ℕ

-- The tables that the job writes; of the usage and audit rows only the time is read.
pub record Tables : Type 0 where
  pub imports : List ImportRow
  pub policies : List PolicyRow
  pub calendar_rows : List CalendarRow
  pub owner_quotas : List Date
  pub app_quotas : List Date
  pub audit_logs : List ℕ

pub record State : Type 0 where
  pub jobs : List JobRun
  pub tables : Tables

-- `MaintenanceResult`.
pub record MaintenanceResult : Type 0 where
  pub skipped : Bool
  pub logical_run_date : Date
  pub expired_drafts : ℕ
  pub deleted_drafts : ℕ
  pub stale_statuses : ℕ
  pub deleted_usage_rows : ℕ
  pub deleted_audit_rows : ℕ

-- `status IN ('uploaded', 'extracting', 'review', 'failed')`.
abbrev pub is_draft : ImportStatus → Bool
is_draft uploaded = true
is_draft extracting = true
is_draft review = true
is_draft failed = true
is_draft _ = false

abbrev pub is_expired : ImportStatus → Bool
is_expired expired = true
is_expired _ = false

-- `at < now() - make_interval(days => :days)`.
abbrev pub older : ℕ → ℕ → ℕ → Bool
older days now at = ltb (at + days * us_per_day) now

abbrev pub overdue : ℕ → ℕ → ImportRow → Bool
overdue ttl now r = is_draft r.status && older ttl now r.created_at

abbrev pub expire : ℕ → ImportRow → ImportRow
expire now r = record r { status = expired; updated_at = now }

abbrev pub retired : ℕ → ℕ → ImportRow → Bool
retired retention now r = is_expired r.status && older retention now r.created_at

abbrev pub stale_policy : ℕ → PolicyRow → Bool
stale_policy now r = elim r.status [ indexing ↦ older 1 now r.updated_at | _ ↦ false ]

abbrev pub fail_policy : ℕ → PolicyRow → PolicyRow
fail_policy now r = record {
  status = policy_failed;
  error_code = some (codes "STALE_INDEXING");
  updated_at = now;
}

abbrev pub stale_calendar : ℕ → CalendarRow → Bool
stale_calendar now r = elim r.status [ pending ↦ older 1 now r.updated_at | _ ↦ false ]

abbrev pub fail_calendar : ℕ → CalendarRow → CalendarRow
fail_calendar now r = record {
  status = sync_failed;
  last_error_code = some (codes "STALE_PENDING");
  updated_at = now;
}

module _ {A : Type 0} where
  -- `UPDATE ... WHERE p`, on every row, and its `rowcount`.
  unfoldable pub update_where : (A → Bool) → (A → A) → List A → List A
  update_where p f [] = []
  update_where p f (x ∷ xs) = (if p x then f x else x) ∷ update_where p f xs

  abbrev pub row_count : (A → Bool) → List A → ℕ
  row_count p xs = length (filter p xs)

  -- `DELETE ... WHERE p`.
  abbrev pub delete_where : (A → Bool) → List A → List A
  delete_where p xs = filter (λ x. not (p x)) xs

-- `usage_date < :logical_run_date - 2`.
abbrev pub old_usage : Date → Date → Bool
old_usage date usage = ltb (usage + 2) date

-- `_perform`; the counts are those of the statements in their order.
unfoldable pub perform : Date → ℕ → ℕ → ℕ → Tables → MaintenanceResult × Tables
unfolding update_where
perform date ttl retention now t =
    let imports = update_where (overdue ttl now) (expire now) t.imports in
    (
      record {
        skipped = false;
        logical_run_date = date;
        expired_drafts = row_count (overdue ttl now) t.imports;
        deleted_drafts = row_count (retired retention now) imports;
        stale_statuses =
            row_count (stale_policy now) t.policies
            + row_count (stale_calendar now) t.calendar_rows;
        deleted_usage_rows =
            row_count (old_usage date) t.owner_quotas + row_count (old_usage date) t.app_quotas;
        deleted_audit_rows = row_count (older retention now) t.audit_logs;
      },
      record {
        imports = delete_where (retired retention now) imports;
        policies = update_where (stale_policy now) (fail_policy now) t.policies;
        calendar_rows = update_where (stale_calendar now) (fail_calendar now) t.calendar_rows;
        owner_quotas = delete_where (old_usage date) t.owner_quotas;
        app_quotas = delete_where (old_usage date) t.app_quotas;
        audit_logs = delete_where (older retention now) t.audit_logs;
      },
    )

abbrev pub find_job : Date → List JobRun → Option JobRun
find_job date jobs = find? (λ j. j.logical_run_date == date) jobs

-- The condition under which a row of the date is taken over.
abbrev pub may_claim : ℕ → JobRun → Bool
may_claim now j = elim j.status [
  | job_failed ↦ true
  | running ↦ ltb (j.started_at + 60 * us_per_minute) now
  | succeeded ↦ false
]

abbrev pub claimed_by : ℕ → JobRun → JobRun
claimed_by now j = record j {
  status = running;
  started_at = now;
  finished_at = none;
  last_error_code = none;
}

abbrev pub on_date : Date → JobRun → Bool
on_date date j = j.logical_run_date == date

-- `INSERT ... ON CONFLICT ... DO UPDATE ... RETURNING id`.
unfoldable pub claim : Date → ℕ → List JobRun → Option (List JobRun)
claim date now jobs = elim (find_job date jobs) [
  | none ↦ some (
      record {
        logical_run_date = date;
        status = running;
        started_at = now;
        finished_at = none;
        last_error_code = none;
      }
      ∷ jobs)
  | some j ↦
      if may_claim now j then some (update_where (on_date date) (claimed_by now) jobs) else none
]

abbrev pub finished : JobStatus → Option Text → ℕ → JobRun → JobRun
finished status code now j = record j {
  status = status;
  finished_at = some now;
  last_error_code = code;
}

abbrev pub skip : Date → MaintenanceResult
skip date = record {
  skipped = true;
  logical_run_date = date;
  expired_drafts = 0;
  deleted_drafts = 0;
  stale_statuses = 0;
  deleted_usage_rows = 0;
  deleted_audit_rows = 0;
}

pub data MaintenanceError : Type 0 where
  database_error : MaintenanceError

-- The second transaction.
unfoldable pub finish : Date → ℕ → ℕ → ℕ → State → MaintenanceResult × State
unfolding perform
finish date ttl retention now s =
    let done = perform date ttl retention now s.tables in
    (
      done.0,
      record {
        jobs = update_where (on_date date) (finished succeeded none now) s.jobs;
        tables = done.1;
      },
    )

-- The third transaction, where the database fails in the second, which is rolled back.
unfoldable pub fail : Date → ℕ → State → State
fail date now s = record s {
  jobs =
      update_where (on_date date) (finished job_failed (some (codes "MAINTENANCE_FAILED")) now)
        s.jobs;
}

-- The database, the dates of the runs that have claimed theirs and are at work, and what the runs
-- that are over have returned or raised, the last one first.
pub record System : Type 0 where
  pub state : State
  pub working : List Date
  pub answers : List (Result MaintenanceError MaintenanceResult)

-- The transactions of the runs: a run of a date claims it, finishes or fails; the settings are those
-- of the run, and `now` is the time of the transaction.
pub data Event : Type 0 where
  claims fails : Date → ℕ → Event
  finishes : Date → ℕ → ℕ → ℕ → Event

abbrev pub is_working : Date → List Date → Bool
is_working date working = any (λ d. d == date) working

-- One run of the date is no longer at work.
abbrev pub without_one : Date → List Date → List Date
without_one date [] = []
without_one date (d ∷ working) = if d == date then working else d ∷ without_one date working

-- The claim of a run: it is skipped where the statement returns no id.
abbrev pub begin : Date → Option (List JobRun) → System → System
begin date none sys = record sys { answers = ok (skip date) ∷ sys.answers }
begin date (some jobs) sys =
    let state' : State = record sys.state { jobs = jobs } in
    record sys { state = state'; working = date ∷ sys.working }

-- `MaintenanceService.run`, one transaction at a time: those of several runs may come in any order,
-- but only a run that is at work ends.
unfoldable pub step : Event → System → System
unfolding claim finish fail
step (claims date now) sys = begin date (claim date now sys.state.jobs) sys
step (finishes date ttl retention now) sys =
    if is_working date sys.working
    then (let (result, state') = finish date ttl retention now sys.state in
        record {
          state = state';
          working = without_one date sys.working;
          answers = ok result ∷ sys.answers;
        })
    else sys
step (fails date now) sys =
    if is_working date sys.working
    then record {
      state = fail date now sys.state;
      working = without_one date sys.working;
      answers = raise database_error ∷ sys.answers;
    }
    else sys

unfoldable pub steps : List Event → System → System
unfolding step
steps [] sys = sys
steps (e ∷ events) sys = steps events (step e sys)
