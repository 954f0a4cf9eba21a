-- ===== src/Automation/Jobs/Steps.antt =====
-- The steps that the threads of the automation server make on a job manager, in any order.
use external_toolchain_utils.Automation.Machines.{return_machines, Pool}
use external_toolchain_utils.Automation.StateMachine.{succeeded, job_status_eq}
use external_toolchain_utils.Automation.StateMachine.History.{change-ok}
use external_toolchain_utils.Automation.StateMachine.{
  change, job_table, BasicStateMachine, JobStatus, succeeded,
}
use external_toolchain_utils.Prelude.{
  ℕ, ◌≡◌, refl, ◌≢◌, inl, inr, Bool, true, false, not, ◌&&◌, some, List, [], ◌∷◌, get_elem?,
  parts_of_ok, ok_injective, ◌==◌, ==_iff, Bool-cases, ok, nat_eq, ◌≟◌, contains,
}
use Prim.Native.String.{String}
use external_toolchain_utils.Automation.Jobs.{
  kill_jobs, stop, queue_next, notified, set_phase, is_ready, queue_successors, clean_up_job,
  kill_job, notify, advance, begin, status, JobExecuter, run_round, add_job, set_job, JobManager,
  Job, set_status, starting, working, finished,
}

pub data Step (fnmatch : String → String → Bool) (s s' : JobManager) : Type 0 where
  add_step : (j : ℕ) → s' ≡ add_job j s → Step fnmatch s s'
  run_step : s.run_ended ≡ false → s' ≡ run_round fnmatch s → Step fnmatch s s'
  begin_step :
      (i : ℕ) (x : JobExecuter)
      → get_elem? s.executers i ≡ some x
      → x.phase ≡ starting
      → s' ≡ begin i x s
      → Step fnmatch s s'
  advance_step :
      (i : ℕ) (x : JobExecuter) (new_status : JobStatus)
      → get_elem? s.executers i ≡ some x
      → x.phase ≡ working
      → advance i x new_status s ≡ ok s'
      → Step fnmatch s s'
  notify_step :
      (i : ℕ) (x : JobExecuter)
      → get_elem? s.executers i ≡ some x
      → x.phase ≡ finished
      → notify i x s ≡ ok s'
      → Step fnmatch s s'
  kill_step : (id : ℕ) → s' ≡ kill_job id s → Step fnmatch s s'
  clean_step : (j : ℕ) → s' ≡ clean_up_job j s → Step fnmatch s s'
  stop_step : s' ≡ stop s → Step fnmatch s s'

pub data Steps (fnmatch : String → String → Bool) (s : JobManager) : JobManager → Type 0 where
  no_steps : Steps fnmatch s s
  one_more : {t u : JobManager} → Steps fnmatch s t → Step fnmatch t u → Steps fnmatch s u

-- What a write to a job leaves alone.
pub set_job-same {ℓ} :
    {A : Type ℓ} (field : Job → A) (j : ℕ) (job : Job) (jobs : ℕ → Job) (i : ℕ)
    → field job ≡ field (jobs j)
    → field (set_job j job jobs i) ≡ field (jobs i)
set_job-same field j job jobs i same = elim (Bool-cases (i == j)) [
  | inl here ↦ rw here (rw ((==_iff i j).0 here) same)
  | inr there ↦ rw there
]

pub set_job-ne :
    (j : ℕ) (job : Job) (jobs : ℕ → Job) (i : ℕ) → i ≢ j → set_job j job jobs i ≡ jobs i
set_job-ne j job jobs i ne = elim (Bool-cases (i == j)) [
  | inl here ↦ absurd (ne ((==_iff i j).0 here))
  | inr there ↦ rw there
]

pub set_job_self : (j : ℕ) (job : Job) (jobs : ℕ → Job) → set_job j job jobs j ≡ job
set_job_self j job jobs = let here : (j == j) ≡ true = (==_iff j j).1 refl in rw here

-- Setting a status that is allowed changes the state of that job alone.
pub set_status_lem :
    (j : ℕ) (new_status : JobStatus) (s s' : JobManager)
    → set_status j new_status s ≡ ok s'
    → (state : BasicStateMachine JobStatus) × (s'
        ≡ record s { jobs = set_job j (record (s.jobs j) { state = state }) s.jobs })
      × (state.state ≡ new_status)
      × (contains (job_table.transitions (status s j)) new_status ≡ true)
unfolding set_status
set_status_lem j new_status s s' done =
    let (state, changed, rest) =
      parts_of_ok (change job_table new_status (s.jobs j).state)
        (λ state. ok (record s { jobs = set_job j (record (s.jobs j) { state = state }) s.jobs }))
        done in
    let (now, allowed) = change-ok job_table (s.jobs j).state state new_status changed in
    (state, (cc), now, allowed)

-- Queueing the successors changes the queue alone.
pub queue_successors_lem :
    (js : List ℕ) (s : JobManager)
    → (ready : List ℕ) × (queue_successors js s ≡ record s { ready_jobs = ready })
unfolding queue_successors
queue_successors_lem [] s = (s.ready_jobs, refl)
queue_successors_lem (j ∷ js) s =
    elim (Bool-cases (is_ready s j && not (contains s.ready_jobs j))) [
      | inl queued ↦
          let (ready, e) = queue_successors_lem js (record s { ready_jobs = j ∷ s.ready_jobs }) in
          (ready, rw queued e)
      | inr kept ↦ let (ready, e) = queue_successors_lem js s in (ready, rw kept e)
    ]

-- A predicate on managers that each step keeps is kept by every run.
pub Steps-keeps {ℓ} :
    {fnmatch : String → String → Bool} (P : JobManager → Type ℓ)
    → ((s s' : JobManager) → Step fnmatch s s' → P s → P s')
    → (s s' : JobManager) → Steps fnmatch s s'
    → P s
    → P s'
Steps-keeps P keeps s s' no_steps h = h
Steps-keeps P keeps s s' (one_more {t} before last) h =
    keeps t s' last (Steps-keeps P keeps s t before h)

-- A predicate that each kill keeps is kept by the kill of all jobs.
pub kill_jobs-keeps {ℓ} :
    (P : JobManager → Type ℓ)
    → ((id : ℕ) (s : JobManager) → P s → P (kill_job id s))
    → (js : List ℕ) (s : JobManager) → P s
    → P (kill_jobs js s)
unfolding kill_jobs
kill_jobs-keeps P keeps [] s h = h
kill_jobs-keeps P keeps (j ∷ js) s h =
    kill_jobs-keeps P keeps js (kill_job (s.jobs j).id s) (keeps (s.jobs j).id s h)

-- What NotifyJobComplete leads to when its machines can be given back.
pub notify-ok :
    (i : ℕ) (x : JobExecuter) (s : JobManager) (pool : Pool)
    → return_machines (s.jobs x.job).machines s.pool ≡ ok pool
    → (ready : List ℕ) × (notify i x s
        ≡ ok (set_phase i x notified (record s { pool = pool; ready_jobs = ready })))
unfolding notify
notify-ok i x s pool given = elim (Bool-cases (status s x.job ≟ succeeded)) [
  | inl queued ↦
      let (ready, e) =
        queue_successors_lem (s.jobs x.job).successors
          (set_phase i x notified (record s { pool = pool })) in
      (ready, rw (given, queued, e))
  | inr kept ↦ (s.ready_jobs, rw (given, kept))
]

pub notify_parts :
    (i : ℕ) (x : JobExecuter) (s t : JobManager)
    → notify i x s ≡ ok t
    → (pool : Pool) × (return_machines (s.jobs x.job).machines s.pool ≡ ok pool)
      × (queue_next i x s pool ≡ t)
unfolding notify
notify_parts i x s t done =
    let (pool, returned, rest) =
      parts_of_ok (return_machines (s.jobs x.job).machines s.pool)
        (λ pool. ok (queue_next i x s pool)) done in
    (pool, returned, ok_injective rest)
