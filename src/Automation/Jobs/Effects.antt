-- ===== src/Automation/Jobs/Effects.antt =====
-- What the steps of a job manager do to the dependencies of its jobs, its queue and its executers.
pub mod Threads
use external_toolchain_utils.Automation.StateMachine.History.{from_succeeded}
use external_toolchain_utils.Automation.Jobs.Steps.{
  set_status_lem, set_job-ne, set_job_self, set_job-same,
}
use external_toolchain_utils.Prelude.{
  ℕ, zero, suc, ◌≡◌, refl, ◌∙◌, ◌⊎◌, inl, inr, Bool, true, false, not, ◌&&◌, Option, none, some,
  List, [], ◌∷◌, arith, get_elem?, set, if◌then◌else◌, and_parts, nat_eq, ◌≟◌, contains, Eq-cases,
}
use external_toolchain_utils.Automation.StateMachine.{
  job_table, JobStatus, BasicStateMachine, setup, succeeded,
}
use external_toolchain_utils.Automation.StateMachine.{job_status_eq}
use external_toolchain_utils.Automation.Jobs.{
  working, crashed, set_status, next_phase, Phase, set_phase, after_setup, kill_executer,
  remove_ready, begin, advance, is_ready, set_job, JobManager, all_succeeded, queue_successors,
  JobExecuter, Job,
}
use external_toolchain_utils.Prelude.Equality.{contains-cons}

-- The jobs of a later time: no dependency has changed, and what has succeeded stays so.
pub record Extends (jobs jobs' : ℕ → Job) : Type 0 where
  pub preds : (j : ℕ) → (jobs' j).predecessors ≡ (jobs j).predecessors
  pub succs : (j : ℕ) → (jobs' j).successors ≡ (jobs j).successors
  pub stays : (j : ℕ) → (jobs j).state.state ≡ succeeded → (jobs' j).state.state ≡ succeeded

abbrev pub IsReady : (ℕ → Job) → ℕ → Type 0
IsReady jobs j = all_succeeded jobs (jobs j).predecessors ≡ true

pub Extends-refl : (jobs : ℕ → Job) → Extends jobs jobs
Extends-refl jobs = record { preds = λ j. refl; succs = λ j. refl; stays = λ j h. h }

pub Extends-trans : {a b c : ℕ → Job} → Extends a b → Extends b c → Extends a c
Extends-trans ab bc = record {
  preds = λ j. bc.preds j ∙ ab.preds j;
  succs = λ j. bc.succs j ∙ ab.succs j;
  stays = λ j h. bc.stays j (ab.stays j h);
}

-- A write to a job that keeps its dependencies.
pub set_job-Extends :
    (j : ℕ) (job : Job) (jobs : ℕ → Job)
    → job.predecessors ≡ (jobs j).predecessors
    → job.successors ≡ (jobs j).successors
    → ((jobs j).state.state ≡ succeeded → job.state.state ≡ succeeded)
    → Extends jobs (set_job j job jobs)
set_job-Extends j job jobs preds succs stays = record {
  preds = λ i. set_job-same (λ b. b.predecessors) j job jobs i preds;
  succs = λ i. set_job-same (λ b. b.successors) j job jobs i succs;
  stays = λ i h. elim (Eq-cases i j) [
    | inl same ↦ rw (same, set_job_self j job jobs) (stays (rw same at h))
    | inr other ↦ rw (set_job-ne j job jobs i other) h
  ];
}

pub all_succeeded-Extends :
    {jobs jobs' : ℕ → Job} (ps : List ℕ)
    → Extends jobs jobs'
    → all_succeeded jobs ps ≡ true
    → all_succeeded jobs' ps ≡ true
unfolding all_succeeded
all_succeeded-Extends [] ext h = refl
all_succeeded-Extends {jobs} {jobs'} (p ∷ ps) ext h =
    let (a, b) = and_parts ((jobs p).state.state ≟ succeeded) (all_succeeded jobs ps) h in
    let now : (jobs p).state.state ≡ succeeded =
      (job_status_eq.beq_iff (jobs p).state.state succeeded).0 a in
    rw (ext.stays p now, all_succeeded-Extends ps ext b)

-- A job that is ready stays ready.
pub IsReady-Extends :
    {jobs jobs' : ℕ → Job} (j : ℕ) → Extends jobs jobs' → IsReady jobs j → IsReady jobs' j
IsReady-Extends {jobs' = jobs'} j ext h = rw (ext.preds j) (all_succeeded-Extends (_) ext h)

-- The executers after a write to one of them.
pub set-job_of :
    (xs : List JobExecuter) (i n : ℕ) (x y z : JobExecuter)
    → get_elem? xs i ≡ some x
    → y.job ≡ x.job
    → get_elem? (set xs i y) n ≡ some z
    → (w : JobExecuter) × (get_elem? xs n ≡ some w) × (w.job ≡ z.job)
set-job_of [] i n x y z at same e = absurd (cc)
set-job_of (a ∷ xs) zero zero x y z at same e = (a, refl, cc)
set-job_of (a ∷ xs) zero (suc n) x y z at same e = (z, e, refl)
set-job_of (a ∷ xs) (suc i) zero x y z at same e = (z, e, refl)
set-job_of (a ∷ xs) (suc i) (suc n) x y z at same e = set-job_of xs i n x y z at same e

-- The queue after the successors.
queued-source :
    (j k : ℕ) (s : JobManager)
    → is_ready s j && not (contains s.ready_jobs j) ≡ true
    → contains (j ∷ s.ready_jobs) k ≡ true
    → (contains s.ready_jobs k ≡ true) ⊎ IsReady s.jobs k
queued-source j k s queued there = elim (contains-cons j s.ready_jobs k there) [
  | inl same ↦ inr (rw same (and_parts (is_ready s j) (not (contains s.ready_jobs j)) queued).0)
  | inr other ↦ inl other
]

pub queue_successors-source :
    (js : List ℕ) (s : JobManager) (k : ℕ)
    → contains (queue_successors js s).ready_jobs k ≡ true
    → (contains s.ready_jobs k ≡ true) ⊎ IsReady s.jobs k
unfolding queue_successors
queue_successors-source [] s k h = inl h
queue_successors-source (j ∷ js) s k h =
    go (λ t. queue_successors-source js t k) (is_ready s j && not (contains s.ready_jobs j)) refl h
  where
    go :
        ((t : JobManager)
          → contains (queue_successors js t).ready_jobs k ≡ true
          → (contains t.ready_jobs k ≡ true) ⊎ IsReady t.jobs k)
        → (queued : Bool) → is_ready s j && not (contains s.ready_jobs j) ≡ queued
        → contains
            (queue_successors js
              (if queued then record s { ready_jobs = j ∷ s.ready_jobs } else s)).ready_jobs
            k
          ≡ true
        → (contains s.ready_jobs k ≡ true) ⊎ IsReady s.jobs k
    go again false e h = again s h
    go again true e h = elim (again (record s { ready_jobs = j ∷ s.ready_jobs }) h) [
      | inl there ↦ queued-source j k s e there
      | inr ready ↦ inr ready
    ]

-- The executers after one has been killed.
pub kill_executer-job :
    (o : Option ℕ) (xs : List JobExecuter) (n : ℕ) (z : JobExecuter)
    → get_elem? (kill_executer o xs) n ≡ some z
    → (w : JobExecuter) × (get_elem? xs n ≡ some w) × (w.job ≡ z.job)
unfolding kill_executer
kill_executer-job none xs n z e = (z, e, refl)
kill_executer-job (some i) xs n z e = go (get_elem? xs i) refl e
  where
    go :
        (o : Option JobExecuter)
        → get_elem? xs i ≡ o
        → get_elem? (elim o [ none ↦ xs | some x ↦ set xs i (record x { killed = true }) ]) n
          ≡ some z
        → (w : JobExecuter) × (get_elem? xs n ≡ some w) × (w.job ≡ z.job)
    go none at e = (z, e, refl)
    go (some x) at e = set-job_of xs i n x (record x { killed = true }) z at refl e

pub remove_ready-contains :
    (s : JobManager) (id : ℕ) (js : List ℕ) (k : ℕ)
    → contains (remove_ready s id js) k ≡ true
    → contains js k ≡ true
unfolding remove_ready contains
remove_ready-contains s id [] k h = h
remove_ready-contains s id (j ∷ js) k h = ground (arith, remove_ready-contains s id js k)
