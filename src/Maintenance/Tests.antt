-- ===== src/Maintenance/Tests.antt =====
-- The theorems on backend/app/services/maintenance.py at concrete inputs.
use shiftmate_web.Prelude.{ℕ, ◌+◌, ◌*◌, ◌≡◌, refl, false, none, Option, some, List, map, [], ◌∷◌}
use shiftmate_web.Prelude.Result.{ok}
use shiftmate_web.Domain.Zone.{us_per_day, us_per_minute}
use shiftmate_web.Database.{ImportRow, indexing, committed, expired, pending}
use shiftmate_web.Maintenance.{
  State, Tables, MaintenanceResult, JobRun, succeeded, job_failed, claim, perform, update_where,
  finish, fail, skip, System, Event, claims, finishes, fails, find_job, step, steps,
}
use shiftmate_web.Maintenance.Runs.{run_once}
use shiftmate_web.Shifts.Deletion.{Pairwise}
use shiftmate_web.Maintenance.Cleaned.{IsCleaned, present, perform_cleans}
use shiftmate_web.Examples.{import_row}

abbrev tables : Tables
tables = record {
  imports =
      record import_row { created_at = 10 * us_per_day }
      ∷ record import_row { id = 12; status = committed }
      ∷ record import_row { id = 13; status = expired }
      ∷ [];
  policies = record { status = indexing; error_code = none; updated_at = 0 } ∷ [];
  calendar_rows = record { status = pending; last_error_code = none; updated_at = 0 } ∷ [];
  owner_quotas = 1 ∷ 20 ∷ [];
  app_quotas = 1 ∷ [];
  audit_logs = 5 ∷ 20 * us_per_day ∷ [];
}

abbrev state : State
state = record { jobs = []; tables = tables }

abbrev now : ℕ
now = 20 * us_per_day

abbrev job : JobRun
job = record {
  logical_run_date = 21;
  status = succeeded;
  started_at = now;
  finished_at = some (now + 5);
  last_error_code = none;
}

abbrev result : MaintenanceResult
result = record {
  skipped = false;
  logical_run_date = 21;
  expired_drafts = 1;
  deleted_drafts = 1;
  stale_statuses = 2;
  deleted_usage_rows = 2;
  deleted_audit_rows = 1;
}

-- The draft of the tenth day has expired and is kept; the import that had expired is deleted.
abbrev after : State
after = record { jobs = job ∷ []; tables = (perform 21 7 14 (now + 5) tables).1 }

abbrev start : System
start = record { state = state; working = []; answers = [] }

abbrev ended : System
ended = record { state = after; working = []; answers = ok result ∷ [] }

run_first : steps (claims 21 now ∷ finishes 21 7 14 (now + 5) ∷ []) start ≡ ended
unfolding steps step claim finish perform update_where
run_first = refl

-- A run of another date, which fails, and one of the same date.
abbrev more : List Event
more = claims 22 (now + 6) ∷ claims 21 (now + 7) ∷ fails 22 (now + 8) ∷ []

run_once_example :
    (find_job 21 (steps more ended).state.jobs ≡ some job)
    × (step (claims 21 (now + 900)) (steps more ended)
        ≡ record (steps more ended) { answers = ok (skip 21) ∷ (steps more ended).answers })
run_once_example =
    run_once 21 job ended more (now + 900) (record { found = refl; done = refl; idle = refl })

-- A run of more than an hour is taken over while it works; it fails after the other has succeeded,
-- and the date is open again.
abbrev hour : ℕ
hour = 60 * us_per_minute

taken_over :
    map
      (λ j. j.status)
      (steps
        (claims 21 now
          ∷ claims 21 (now + hour + 1)
          ∷ finishes 21 7 14 (now + hour + 2)
          ∷ fails 21 (now + hour + 3)
          ∷ [])
        start).state.jobs
    ≡ job_failed ∷ []
unfolding steps step claim finish fail perform update_where
taken_over = refl

perform_cleans_example :
    (left : List (Option ImportRow)) × Pairwise (IsCleaned 7 14 now) tables.imports left
    × ((perform 21 7 14 now tables).1.imports ≡ present left)
perform_cleans_example = perform_cleans 21 7 14 now tables
