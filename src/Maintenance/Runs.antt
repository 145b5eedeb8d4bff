-- ===== src/Maintenance/Runs.antt =====
-- What the runs of backend/app/services/maintenance.py do, in any order of their transactions.
use shiftmate_web.Prelude.{
  ℕ, ◌≡◌, refl, ◌∙◌, true, false, Option, none, some, List, [], ◌∷◌, arith, ◌==◌, Bool-cases,
  Option-cases, inl, inr,
}
use shiftmate_web.Prelude.Result.{ok}
use shiftmate_web.Domain.Zone.{Date}
use shiftmate_web.Maintenance.{
  JobRun, succeeded, update_where, find_job, may_claim, claimed_by, on_date, claim, skip, finish,
  fail, System, Event, claims, finishes, fails, is_working, without_one, begin, step, steps,
}

-- A date whose row is succeeded, and of which no run is at work.
pub record IsDone (date : Date) (j : JobRun) (sys : System) : Type 0 where
  pub found : find_job date sys.state.jobs ≡ some j
  pub done : j.status ≡ succeeded
  pub idle : is_working date sys.working ≡ false

module _ (date : Date) where
  find_job-other :
      (d : Date) (f : JobRun → JobRun) (jobs : List JobRun)
      → ((k : JobRun) → (f k).logical_run_date ≡ k.logical_run_date)
      → (d == date) ≡ false
      → find_job date (update_where (on_date d) f jobs) ≡ find_job date jobs
  unfolding update_where
  find_job-other d f [] keeps other = refl
  find_job-other d f (k ∷ jobs) keeps other =
      ground (arith, keeps k, find_job-other d f jobs keeps other)

  claim-done :
      (now : ℕ) (jobs : List JobRun) (j : JobRun)
      → find_job date jobs ≡ some j
      → j.status ≡ succeeded
      → claim date now jobs ≡ none
  unfolding claim
  claim-done now jobs j found done = rw (claim, found, done)

  claim-other :
      (d : Date) (now : ℕ) (jobs jobs' : List JobRun)
      → (d == date) ≡ false
      → claim d now jobs ≡ some jobs'
      → find_job date jobs' ≡ find_job date jobs
  unfolding claim
  claim-other d now jobs jobs' other h = elim (Option-cases (find_job d jobs)) [
    | inl new ↦ ground arith
    | inr (j, old) ↦ elim (Bool-cases (may_claim now j)) [
      | inl may ↦
          let left : update_where (on_date d) (claimed_by now) jobs ≡ jobs' =
            (let h' = rw (claim, old, may) at h in cc h') in
          rw (← left) (find_job-other d (claimed_by now) jobs (λ k. refl) other)
      | inr taken ↦ absurd (let h' = rw (claim, old, taken) at h in cc h')
    ]
  ]

  still_idle :
      (d : Date) (working : List Date)
      → is_working date working ≡ false
      → is_working date (without_one d working) ≡ false
  still_idle d [] idle = refl
  still_idle d (x ∷ working) idle = ground (arith, still_idle d working)

  not_working :
      (d : Date) (working : List Date)
      → is_working d working ≡ true
      → is_working date working ≡ false
      → (d == date) ≡ false
  not_working d [] w idle = cc
  not_working d (x ∷ working) w idle = ground (arith, not_working d working)

  module _ (j : JobRun) where
    begin-IsDone :
        (d : Date) (jobs : Option (List JobRun)) (sys : System)
        → ((jobs' : List JobRun)
            → jobs ≡ some jobs'
            → ((d == date) ≡ false) × (find_job date jobs' ≡ find_job date sys.state.jobs))
        → IsDone date j sys
        → IsDone date j (begin d jobs sys)
    begin-IsDone d none sys keeps h = record { found = h.found; done = h.done; idle = h.idle }
    begin-IsDone d (some jobs) sys keeps h =
        let (other, same) = keeps jobs refl in
        record { found = same ∙ h.found; done = h.done; idle = rw other h.idle }

    claims-IsDone :
        (d : Date) (now : ℕ) (sys : System)
        → IsDone date j sys
        → IsDone date j (step (claims d now) sys)
    unfolding step
    claims-IsDone d now sys h =
        begin-IsDone d (claim d now sys.state.jobs) sys
          (λ jobs' e. elim (Bool-cases (d == date)) [
            | inl same ↦ absurd (
                let e₁ : d ≡ date = ground arith in
                let e₂ = rw e₁ at e in cc (claim-done now sys.state.jobs j h.found h.done, e₂))
            | inr other ↦ (other, claim-other d now sys.state.jobs jobs' other e)
          ])
          h

    step-IsDone : (e : Event) (sys : System) → IsDone date j sys → IsDone date j (step e sys)
    unfolding step finish fail
    step-IsDone (claims d now) sys h = claims-IsDone d now sys h
    step-IsDone (finishes d ttl retention now) sys h =
        elim (Bool-cases (is_working d sys.working)) [
          | inl w ↦ rw w (record {
            found =
                find_job-other d _ sys.state.jobs (λ k. refl) (not_working d sys.working w h.idle)
                ∙ h.found;
            done = h.done;
            idle = still_idle d sys.working h.idle;
          })
          | inr w ↦ rw w h
        ]
    step-IsDone (fails d now) sys h = elim (Bool-cases (is_working d sys.working)) [
      | inl w ↦ rw w (record {
        found =
            find_job-other d _ sys.state.jobs (λ k. refl) (not_working d sys.working w h.idle)
            ∙ h.found;
        done = h.done;
        idle = still_idle d sys.working h.idle;
      })
      | inr w ↦ rw w h
    ]

    steps-IsDone :
        (events : List Event) (sys : System) → IsDone date j sys → IsDone date j (steps events sys)
    unfolding steps
    steps-IsDone [] sys h = h
    steps-IsDone (e ∷ events) sys h = steps-IsDone events (step e sys) (step-IsDone e sys h)

  -- Once the row of a date is succeeded and no run of the date is at work any more, then after
  -- whatever transactions of runs of any dates, in any order and at any time, the row is still as it
  -- was, and a further run of the date is skipped and changes nothing.
  pub run_once :
      (j : JobRun) (sys : System) (events : List Event) (now : ℕ)
      → IsDone date j sys
      → (find_job date (steps events sys).state.jobs ≡ some j)
        × (step (claims date now) (steps events sys)
            ≡ record (steps events sys) { answers = ok (skip date) ∷ (steps events sys).answers })
  unfolding step
  run_once j sys events now h =
      let after = steps-IsDone j events sys h in
      (after.found, rw (claim-done now (steps events sys).state.jobs j after.found after.done) refl)
