-- ===== src/Automation/Jobs/Order/Queue.antt =====
-- The jobs that are ready, in the queue and among the executers.
use external_toolchain_utils.Automation.Jobs.Loop.{start_job_lem}
use external_toolchain_utils.Prelude.{
  ℕ, zero, suc, ◌≡◌, refl, sym, ap, ◌∙◌, ◌⊎◌, inl, inr, Bool, true, false, some, List, [], ◌∷◌,
  ◌++◌, get_elem?, ◌==◌, if◌then◌else◌, ==_iff, or_cases, nat_eq, contains,
}
use external_toolchain_utils.Prelude.Equality.{
  contains-cons, contains-snoc, contains-cons_self, contains-cons_of,
}
use external_toolchain_utils.Automation.StateMachine.{job_status_eq}
use external_toolchain_utils.Automation.Jobs.{
  set_job, set_phase, Job, Phase, start_job, is_ready, add_job, JobExecuter, launch, JobManager,
  starting,
}
use external_toolchain_utils.Automation.Jobs.Effects.{
  set-job_of, set_job-Extends, IsReady-Extends, Extends-refl, IsReady, Extends,
}
use external_toolchain_utils.Automation.Jobs.Loop.{Started, has_raised, has_machines}
use external_toolchain_utils.Automation.Machines.{MachineSpecification}
use mathlib.Core.Path.{subst}
use Prim.Native.String.{String}

-- The jobs that are queued, and those that have an executer, are ready.
pub record IsOrdered (s : JobManager) : Type 0 where
  pub queue : (j : ℕ) → contains s.ready_jobs j ≡ true → IsReady s.jobs j
  pub started : (i : ℕ) (x : JobExecuter) → get_elem? s.executers i ≡ some x → IsReady s.jobs x.job

-- A step keeps the order if what is new in the queue and among the executers is ready.
pub IsOrdered-Extends :
    (s s' : JobManager)
    → Extends s.jobs s'.jobs
    → ((j : ℕ)
        → contains s'.ready_jobs j ≡ true
        → (contains s.ready_jobs j ≡ true) ⊎ IsReady s.jobs j)
    → ((n : ℕ) (z : JobExecuter)
        → get_elem? s'.executers n ≡ some z
        → ((w : JobExecuter) × (m : ℕ) × (get_elem? s.executers m ≡ some w) × (w.job ≡ z.job))
          ⊎ IsReady s.jobs z.job)
    → IsOrdered s
    → IsOrdered s'
IsOrdered-Extends s s' ext queue started h = record {
  queue = λ j at.
      IsReady-Extends j ext (elim (queue j at) [ inl old ↦ h.queue j old | inr ready ↦ ready ]);
  started = λ n z at. IsReady-Extends z.job ext (elim (started n z at) [
    | inl (w, m, old, same) ↦ subst (IsReady s.jobs) same (h.started m w old)
    | inr ready ↦ ready
  ]);
}

pub add_job-IsOrdered : (j : ℕ) (s : JobManager) → IsOrdered s → IsOrdered (add_job j s)
unfolding add_job
add_job-IsOrdered j s h =
    IsOrdered-Extends s (add_job j s)
      (set_job-Extends j (record (s.jobs j) { id = s.next_id }) s.jobs refl refl (λ e. e))
      (λ k at. queue k (is_ready s j) refl at) (λ n z at. inl (z, n, at, refl)) h
  where
    queue :
        (k : ℕ) (b : Bool)
        → is_ready s j ≡ b
        → contains (if b then j ∷ s.ready_jobs else s.ready_jobs) k ≡ true
        → (contains s.ready_jobs k ≡ true) ⊎ IsReady s.jobs k
    queue k false e at = inl at
    queue k true e at = elim (contains-cons j s.ready_jobs k at) [
      | inl same ↦ inr (rw same e)
      | inr old ↦ inl old
    ]

-- An executer is added at the end.
pub append-job_of :
    (xs : List JobExecuter) (x : JobExecuter) (n : ℕ) (z : JobExecuter)
    → get_elem? (xs ++ x ∷ []) n ≡ some z
    → (get_elem? xs n ≡ some z) ⊎ (x ≡ z)
append-job_of [] x zero z e = inr (cc)
append-job_of [] x (suc n) z e = absurd (cc)
append-job_of (y ∷ ys) x zero z e = inl e
append-job_of (y ∷ ys) x (suc n) z e = append-job_of ys x n z e

launch-IsOrdered :
    (j : ℕ) (machines : List ℕ) (s : JobManager)
    → IsReady s.jobs j
    → IsOrdered s
    → IsOrdered (launch j machines s).0
unfolding launch
launch-IsOrdered j [] s ready h =
    IsOrdered-Extends s (record s { ready_jobs = s.ready_jobs ++ j ∷ [] }) (Extends-refl s.jobs)
      (λ k at.
        elim (or_cases (contains s.ready_jobs k) (k == j)
          (sym (contains-snoc s.ready_jobs j k) ∙ at)) [
            | inl old ↦ inl old
            | inr same ↦ inr (rw ((==_iff k j).0 same) ready)
          ])
      (λ n z at. inl (z, n, at, refl)) h
launch-IsOrdered j (m ∷ ms) s ready h =
    let x : JobExecuter = record { job = j; machines = m ∷ ms; phase = starting; killed = false } in
    IsOrdered-Extends s (launch j (m ∷ ms) s).0 (Extends-refl s.jobs) (λ k at. inl at)
      (λ n z at. elim (append-job_of s.executers x n z at) [
        | inl old ↦ inl (z, n, old, refl)
        | inr same ↦ inr (rw (ap (λ y. y.job) (sym same)) ready)
      ])
      h

pub start_job-IsOrdered :
    (fnmatch : String → String → Bool) (j : ℕ) (js : List ℕ) (s s' : JobManager) (more : Bool)
    → s.ready_jobs ≡ j ∷ js
    → IsOrdered s
    → start_job fnmatch j (record s { ready_jobs = js }) ≡ (s', more)
    → IsOrdered s'
start_job-IsOrdered fnmatch j js s s' more queue h done =
    go (start_job_lem fnmatch j (record s { ready_jobs = js }) s' more done)
  where
    ext :
        (specs : List MachineSpecification)
        → Extends s.jobs (set_job j (record (s.jobs j) { machine_dependencies = specs }) s.jobs)
    ext specs =
        set_job-Extends j (record (s.jobs j) { machine_dependencies = specs }) s.jobs refl refl
          (λ e. e)

    taken :
        (specs : List MachineSpecification)
        → IsOrdered (record s {
          jobs = set_job j (record (s.jobs j) { machine_dependencies = specs }) s.jobs;
          ready_jobs = js;
        })
    taken specs =
        IsOrdered-Extends s
          (record s {
            jobs = set_job j (record (s.jobs j) { machine_dependencies = specs }) s.jobs;
            ready_jobs = js;
          })
          (ext specs) (λ k at. inl (rw queue (contains-cons_of j js k at)))
          (λ n z at. inl (z, n, at, refl)) h

    go : Started fnmatch j (record s { ready_jobs = js }) s' more → IsOrdered s'
    go (has_raised specs e) =
        let k = taken specs in
        subst (λ r. IsOrdered r.0) e (record { queue = k.queue; started = k.started })
    go (has_machines specs pool machines got launched) =
        let k = taken specs in
        let t : JobManager = record s {
          jobs = set_job j (record (s.jobs j) { machine_dependencies = specs }) s.jobs;
          ready_jobs = js;
          pool = pool;
        } in
        let first = h.queue j (rw queue (contains-cons_self j js)) in
        subst (λ r. IsOrdered r.0) launched
          (launch-IsOrdered j machines t (IsReady-Extends j (ext specs) first)
            (record { queue = k.queue; started = k.started }))

-- An executer comes into another phase.
pub set_phase-IsOrdered :
    (i : ℕ) (x : JobExecuter) (phase : Phase) (s : JobManager) (jobs : ℕ → Job) (ready : List ℕ)
    → get_elem? s.executers i ≡ some x
    → Extends s.jobs jobs
    → ((j : ℕ) → contains ready j ≡ true → (contains s.ready_jobs j ≡ true) ⊎ IsReady s.jobs j)
    → IsOrdered s
    → IsOrdered (set_phase i x phase (record s { jobs = jobs; ready_jobs = ready }))
set_phase-IsOrdered i x phase s jobs ready at ext queue h =
    IsOrdered-Extends s (set_phase i x phase (record s { jobs = jobs; ready_jobs = ready })) ext
      queue
      (λ n z e.
        let (w, old, same) =
          set-job_of s.executers i n x (record x { phase = phase }) z at refl e in
        inl (w, n, old, same))
      h
