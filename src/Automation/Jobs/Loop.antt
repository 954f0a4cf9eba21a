-- ===== src/Automation/Jobs/Loop.antt =====
-- The loop over the ready jobs in automation/server/job_manager.py: its body, and what it keeps.
use external_toolchain_utils.Automation.Jobs.{
  prefer_machines, end_run, set_job, launch, JobManager, start_job, start_jobs,
}
use external_toolchain_utils.Automation.Machines.{get_machines, Pool, MachineSpecification}
use external_toolchain_utils.Automation.Jobs.{use_machines, after_preferences, end_run}
use mathlib.Core.Path.{subst}
use Prim.Native.String.{String}
use external_toolchain_utils.Prelude.{
  ℕ, ◌≡◌, refl, sym, ap, Bool, true, false, Option, none, some, List, [], ◌∷◌, Exception, Result,
  true-false, ok, err,
}

module _ (fnmatch : String → String → Bool) where
  -- What the body does for a job: it raises, or uses the machines that it gets.
  pub data Started (j : ℕ) (s s' : JobManager) (more : Bool) : Type 0 where
    has_raised :
        (specs : List MachineSpecification)
        → end_run (record s {
          jobs = set_job j (record (s.jobs j) { machine_dependencies = specs }) s.jobs;
        })
          ≡ (s', more)
        → Started j s s' more
    has_machines :
        (specs : List MachineSpecification) (pool : Pool) (machines : List ℕ)
        → get_machines fnmatch specs s.pool ≡ ok (pool, machines)
        → launch j machines (record s {
          jobs = set_job j (record (s.jobs j) { machine_dependencies = specs }) s.jobs;
          pool = pool;
        })
          ≡ (s', more)
        → Started j s s' more

  pub start_job_lem :
      (j : ℕ) (s s' : JobManager) (more : Bool)
      → start_job fnmatch j s ≡ (s', more)
      → Started j s s' more
  unfolding start_job use_machines after_preferences
  start_job_lem j s s' more done =
      go (prefer_machines s (s.jobs j).predecessors (s.jobs j).machine_dependencies) done
    where
      got :
          (specs : List MachineSpecification) (r : Result (Pool × List ℕ))
          → get_machines fnmatch specs s.pool ≡ r
          → use_machines j r (record s {
            jobs = set_job j (record (s.jobs j) { machine_dependencies = specs }) s.jobs;
          })
            ≡ (s', more)
          → Started j s s' more
      got specs (err e) q end_ = has_raised specs end_
      got specs (ok (pool, machines)) q end_ = has_machines specs pool machines q end_

      go :
          (preferred : List MachineSpecification × Option Exception)
          → after_preferences fnmatch j preferred (record s {
            jobs = set_job j (record (s.jobs j) { machine_dependencies = preferred.0 }) s.jobs;
          })
            ≡ (s', more)
          → Started j s s' more
      go (specs, some e) end_ = has_raised specs end_
      go (specs, none) end_ = got specs (get_machines fnmatch specs s.pool) refl end_

  launch-ready :
      (j : ℕ) (machines : List ℕ) (s s' : JobManager)
      → launch j machines s ≡ (s', true)
      → s'.ready_jobs ≡ s.ready_jobs
  unfolding launch
  launch-ready j [] s s' e = absurd (true-false (ap (λ r. r.1) e) refl)
  launch-ready j (m ∷ ms) s s' e = sym (ap (λ r. r.0.ready_jobs) e)

  start_job-ready :
      (j : ℕ) (s s' : JobManager)
      → start_job fnmatch j s ≡ (s', true)
      → s'.ready_jobs ≡ s.ready_jobs
  start_job-ready j s s' done = elim (start_job_lem j s s' true done) [
    | has_raised specs e ↦ absurd (true-false (ap (λ r. r.1) e) refl)
    | has_machines specs pool machines got launched ↦
        launch-ready j machines
          (record s {
            jobs = set_job j (record (s.jobs j) { machine_dependencies = specs }) s.jobs;
            pool = pool;
          })
          s' launched
  ]

  -- What holds of the manager and is kept by the body holds after the loop.
  pub start_jobs-keeps {ℓ} :
      (P : JobManager → Type ℓ)
      → ((j : ℕ) (js : List ℕ) (s s' : JobManager) (more : Bool)
          → s.ready_jobs ≡ j ∷ js
          → P s
          → start_job fnmatch j (record s { ready_jobs = js }) ≡ (s', more)
          → P s')
      → (js : List ℕ) (s : JobManager) → s.ready_jobs ≡ js
      → P s
      → P (start_jobs fnmatch js s)
  unfolding start_jobs
  start_jobs-keeps P body [] s ready h =
      let whole : record s { ready_jobs = [] } ≡ s =
        ap (λ r. record s { ready_jobs = r }) (sym ready) in
      subst P (sym whole) h
  start_jobs-keeps P body (j ∷ js) s ready h =
      go (λ t. start_jobs-keeps P body js t) (start_job fnmatch j (record s { ready_jobs = js }))
        refl
    where
      go :
          ((t : JobManager) → t.ready_jobs ≡ js → P t → P (start_jobs fnmatch js t))
          → (r : JobManager × Bool) → start_job fnmatch j (record s { ready_jobs = js }) ≡ r
          → P (elim r.1 [ true ↦ start_jobs fnmatch js r.0 | false ↦ r.0 ])
      go again (t, false) p = body j js s t false ready h p
      go again (t, true) p =
          again t (start_job-ready j (record s { ready_jobs = js }) t p)
            (body j js s t true ready h p)
