-- ===== src/Automation/Jobs/Accounts/Rounds.antt =====
-- New jobs and the rounds of a job manager's loop keep the accounts of the machines.
use external_toolchain_utils.Automation.Jobs.Loop.{start_jobs-keeps, start_job_lem}
use external_toolchain_utils.Automation.Jobs.Loop.{Started, has_raised, has_machines}
use external_toolchain_utils.Automation.Machines.{MachineSpecification}
use mathlib.Core.Path.{subst}
use external_toolchain_utils.Automation.Jobs.Steps.{set_job-same}
use external_toolchain_utils.Automation.Machines.Rollback.{get_machines_lem}
use external_toolchain_utils.Prelude.Count.{count_of-nil, count_of}
use external_toolchain_utils.Automation.Jobs.Accounts.{held-append, Owns, Owns-Keeps, IsAccounted}
use external_toolchain_utils.Automation.Machines.{uses_at, Pool}
use external_toolchain_utils.Prelude.{
  ℕ, zero, suc, ◌+◌, ◌≡◌, refl, sym, ◌∙◌, Bool, false, some, List, [], ◌∷◌, ◌++◌, arith, get_elem?,
  ok_injective,
}
use Prim.Native.String.{String}
use external_toolchain_utils.Automation.StateMachine.{job_status_eq}
use external_toolchain_utils.Automation.Jobs.{
  run_round, JobExecuter, set_job, start_job, add_job, JobManager, Job, launch, starting,
}

module _ (base : ℕ → ℕ) where
  -- A write to a job that changes neither its machines nor its state.
  set_job-IsAccounted :
      (j : ℕ) (job : Job) (s : JobManager)
      → job.machines ≡ (s.jobs j).machines
      → job.state ≡ (s.jobs j).state
      → IsAccounted base s
      → IsAccounted base (record s { jobs = set_job j job s.jobs })
  set_job-IsAccounted j job s machines state h = record {
    uses = h.uses;
    owns = λ i x at.
        Owns-Keeps x.phase s.jobs (set_job j job s.jobs) x.job x.machines
          (
            set_job-same (λ b. b.machines) j job s.jobs x.job machines,
            λ ne. rw (set_job-same (λ b. b.state) j job s.jobs x.job state) ne,
          )
          (h.owns i x at);
  }

  pub add_job-IsAccounted :
      (j : ℕ) (s : JobManager) → IsAccounted base s → IsAccounted base (add_job j s)
  unfolding add_job
  add_job-IsAccounted j s h =
      let k = set_job-IsAccounted j (record (s.jobs j) { id = s.next_id }) s refl refl h in
      record { uses = k.uses; owns = k.owns }

  launch-IsAccounted :
      (j : ℕ) (machines : List ℕ) (s : JobManager) (pool : Pool)
      → IsAccounted base s
      → ((k : ℕ) → uses_at pool k ≡ uses_at s.pool k + count_of k machines)
      → IsAccounted base (launch j machines (record s { pool = pool })).0
  unfolding launch
  launch-IsAccounted j [] s pool h more = record {
    uses = λ k. let m = more k in let u = h.uses k in let z = count_of-nil k in omega arith;
    owns = h.owns;
  }
  launch-IsAccounted j (m ∷ ms) s pool h more = record {
    uses = λ k.
        let p = more k in
        let u = h.uses k in
        let a =
          held-append k s.executers
            (record { job = j; machines = m ∷ ms; phase = starting; killed = false }) in
        omega arith;
    owns = λ i x at. last s.executers i x h.owns at;
  }
    where
      last :
          (xs : List JobExecuter) (i : ℕ) (x : JobExecuter)
          → ((i : ℕ) (x : JobExecuter)
              → get_elem? xs i ≡ some x
              → Owns x.phase s.jobs x.job x.machines)
          → get_elem?
              (xs ++ record { job = j; machines = m ∷ ms; phase = starting; killed = false } ∷ [])
              i
            ≡ some x
          → Owns x.phase s.jobs x.job x.machines
      last [] zero x old at =
          let p : record { job = j; machines = m ∷ ms; phase = starting; killed = false } ≡ x =
            cc in
          subst (λ z. Owns z.phase s.jobs z.job z.machines) p tt
      last [] (suc i) x old at = absurd (cc)
      last (y ∷ ys) zero x old at = old 0 x at
      last (y ∷ ys) (suc i) x old at = last ys i x (λ n z e. old (suc n) z e) at

  module _ (fnmatch : String → String → Bool) where
    start_job-IsAccounted :
        (j : ℕ) (s s' : JobManager) (more : Bool)
        → IsAccounted base s
        → start_job fnmatch j s ≡ (s', more)
        → IsAccounted base s'
    start_job-IsAccounted j s s' more h done = go (start_job_lem fnmatch j s s' more done)
      where
        start :
            (specs : List MachineSpecification)
            → IsAccounted base (record s {
              jobs = set_job j (record (s.jobs j) { machine_dependencies = specs }) s.jobs;
            })
        start specs =
            set_job-IsAccounted j (record (s.jobs j) { machine_dependencies = specs }) s refl refl h

        go : Started fnmatch j s s' more → IsAccounted base s'
        go (has_raised specs e) =
            let k = start specs in
            subst (λ r. IsAccounted base r.0) e (record { uses = k.uses; owns = k.owns })
        go (has_machines specs pool machines got launched) =
            let (pool', machines', got', len, counted) = get_machines_lem fnmatch specs s.pool in
            let same : (pool', machines') ≡ (pool, machines) = ok_injective (sym got' ∙ got) in
            let t : JobManager = record s {
              jobs = set_job j (record (s.jobs j) { machine_dependencies = specs }) s.jobs;
            } in
            let more_uses : (k : ℕ) → uses_at pool k ≡ uses_at s.pool k + count_of k machines =
              subst
                (λ (r : Pool × List ℕ). (k : ℕ) → uses_at r.0 k ≡ uses_at s.pool k + count_of k r.1)
                same counted in
            subst (λ r. IsAccounted base r.0) launched
              (launch-IsAccounted j machines t pool (start specs) more_uses)

    pub run_round-IsAccounted :
        (s : JobManager) → IsAccounted base s → IsAccounted base (run_round fnmatch s)
    unfolding run_round
    run_round-IsAccounted s h =
        start_jobs-keeps fnmatch (IsAccounted base)
          (λ j js t t' more ready k p.
            start_job-IsAccounted j (record t { ready_jobs = js }) t' more
              (record { uses = k.uses; owns = k.owns }) p)
          s.ready_jobs s refl h
