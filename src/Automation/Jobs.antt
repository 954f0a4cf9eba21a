-- ===== src/Automation/Jobs.antt =====
-- automation/server/job_manager.py, with Job of automation/common/job.py and the life of a JobExecuter of
-- automation/server/job_executer.py. A job object is a number, under which `jobs` holds its fields, and an
-- executer is its index in `executers`. `ready_jobs` stands with its last job first, which is the one
-- that `pop` takes. Commands, logs and folders are left out. A method that holds the lock is
-- one step; so are NotifyJobComplete, which gives the machines back before it takes the lock, and the two
-- first statements of an executer.
pub mod Steps
pub mod Loop
pub mod Accounts
pub mod Balance
pub mod Order
pub mod Effects
pub mod Handled
pub mod Lasting
pub mod Links
mod Tests
use external_toolchain_utils.Automation.Machines.{
  add_preferred_machine, Pool, get_machines, MachineSpecification, return_machines,
}
use external_toolchain_utils.Prelude.{
  ℕ, ◌+◌, Bool, true, false, not, ◌&&◌, ◌||◌, Option, none, some, List, [], ◌∷◌, ◌++◌, length,
  get_elem?, set, Exception, Result, ◌>>=◌, ◌>>◌, some_or_raise, ◌==◌, if◌then◌else◌, index_error,
  ok, err, nat_eq, ◌≟◌, contains,
}
use external_toolchain_utils.Prelude.Dict.{insert, delete, lookup}
use external_toolchain_utils.Automation.StateMachine.{
  job_table, JobStatus, BasicStateMachine, setup, copying, running, succeeded, failed,
  job_status_eq, change,
}
use Prim.Native.String.{String}

pub record Job : Type 0 where
  pub id : ℕ
  pub state : BasicStateMachine JobStatus
  pub predecessors : List ℕ
  pub successors : List ℕ
  pub machine_dependencies : List MachineSpecification
  pub machines : List ℕ

-- How far the thread of an executer is: before its first statement, in its `try` block, after it, and
-- when the manager has been notified; or ended by an exception that it does not catch.
pub data Phase : Type 0 where
  starting working finished notified crashed : Phase

pub record JobExecuter : Type 0 where
  pub job : ℕ
  pub machines : List ℕ
  pub phase : Phase
  pub killed : Bool

-- `run_ended` says that an exception has ended the thread of `run`; the jobs that it has started run on.
pub record JobManager : Type 0 where
  pub jobs : ℕ → Job
  pub all_jobs : List ℕ
  pub ready_jobs : List ℕ
  pub job_executer_mapping : List (ℕ × ℕ)
  pub executers : List JobExecuter
  pub pool : Pool
  pub next_id : ℕ
  pub exit_request : Bool
  pub run_ended : Bool

abbrev pub status : JobManager → ℕ → JobStatus
status s j = (s.jobs j).state.state

-- A write to an object.
abbrev pub set_job : ℕ → Job → (ℕ → Job) → ℕ → Job
set_job j job jobs i = if i == j then job else jobs i

-- `add` of a set.
abbrev pub add_to : List ℕ → ℕ → List ℕ
add_to xs a = if contains xs a then xs else a ∷ xs

-- Job.DependsOn: job `j` waits for job `p`.
unfoldable pub depends_on : ℕ → ℕ → (ℕ → Job) → ℕ → Job
depends_on j p jobs =
    let jobs' =
      set_job j (record (jobs j) { predecessors = add_to (jobs j).predecessors p }) jobs in
    set_job p (record (jobs' p) { successors = add_to (jobs' p).successors j }) jobs'

-- Job.is_ready: have all the predecessors succeeded?
unfoldable pub all_succeeded : (ℕ → Job) → List ℕ → Bool
all_succeeded jobs [] = true
all_succeeded jobs (p ∷ ps) = ((jobs p).state.state ≟ succeeded) && all_succeeded jobs ps

abbrev pub is_ready : JobManager → ℕ → Bool
is_ready s j = all_succeeded s.jobs (s.jobs j).predecessors

-- AddJob
unfoldable pub add_job : ℕ → JobManager → JobManager
add_job j s = record s {
  jobs = set_job j (record (s.jobs j) { id = s.next_id }) s.jobs;
  all_jobs = s.all_jobs ++ j ∷ [];
  ready_jobs = if is_ready s j then j ∷ s.ready_jobs else s.ready_jobs;
  next_id = s.next_id + 1;
}

-- `job_.primary_machine.hostname`
pub primary_hostname : JobManager → ℕ → Result String
primary_hostname s j = do
  i ← some_or_raise index_error (get_elem? (s.jobs j).machines 0)
  m ← some_or_raise index_error (get_elem? s.pool i)
  ok m.hostname

pub prefer_on_first : String → List MachineSpecification → Result (List MachineSpecification)
prefer_on_first hostname [] = err index_error
prefer_on_first hostname (spec ∷ specs) = ok (add_preferred_machine hostname spec ∷ specs)

-- The machines of the predecessors become preferred machines of the first specification; with the
-- exception that ends this, if any, and what has been written by then.
pub prefer_machines :
    JobManager → List ℕ → List MachineSpecification → List MachineSpecification × Option Exception
prefer_machines s [] specs = (specs, none)
prefer_machines s (p ∷ ps) specs =
    elim (primary_hostname s p >>= λ hostname. prefer_on_first hostname specs) [
      | ok specs' ↦ prefer_machines s ps specs'
      | err e ↦ (specs, some e)
    ]

-- The rest of the loop's body for a job with the machines that it got: a new executer, or the job goes
-- back to the other end of the queue and the loop breaks.
pub launch : ℕ → List ℕ → JobManager → JobManager × Bool
launch j [] s = (record s { ready_jobs = s.ready_jobs ++ j ∷ [] }, false)
launch j (m ∷ ms) s = (
  record s {
    job_executer_mapping = insert (s.jobs j).id (length s.executers) s.job_executer_mapping;
    executers =
        s.executers ++ record { job = j; machines = m ∷ ms; phase = starting; killed = false } ∷ [];
  },
  true,
)

-- An exception in the loop. It leaves `run`, whose decorator logs it: the thread ends, and the job that
-- has been taken from the queue is in no queue.
abbrev pub end_run : JobManager → JobManager × Bool
end_run s = (record s { run_ended = true }, false)

-- The answer of GetMachines.
pub use_machines : ℕ → Result (Pool × List ℕ) → JobManager → JobManager × Bool
use_machines j (err e) s = end_run s
use_machines j (ok (pool, machines)) s = launch j machines (record s { pool = pool })

module _ (fnmatch : String → String → Bool) where
  pub after_preferences :
      ℕ → List MachineSpecification × Option Exception → JobManager → JobManager × Bool
  after_preferences j (specs, some e) s = end_run s
  after_preferences j (specs, none) s = use_machines j (get_machines fnmatch specs s.pool) s

  -- The body of `while self.ready_jobs`, for a job that has been taken from the queue, and whether
  -- the loop goes on.
  unfoldable pub start_job : ℕ → JobManager → JobManager × Bool
  start_job j s =
      let preferred = prefer_machines s (s.jobs j).predecessors (s.jobs j).machine_dependencies in
      let job = record (s.jobs j) { machine_dependencies = preferred.0 } in
      after_preferences j preferred (record s { jobs = set_job j job s.jobs })

  pub start_jobs : List ℕ → JobManager → JobManager
  start_jobs [] s = record s { ready_jobs = [] }
  start_jobs (j ∷ js) s =
      let next = start_job j (record s { ready_jobs = js }) in
      elim next.1 [ true ↦ start_jobs js next.0 | false ↦ next.0 ]

  -- One round of `run`, after a notification.
  unfoldable pub run_round : JobManager → JobManager
  run_round s = start_jobs s.ready_jobs s

-- The state of a job changes, in the thread of an executer.
unfoldable pub set_status : ℕ → JobStatus → JobManager → Result JobManager
set_status j new_status s = do
  state ← change job_table new_status (s.jobs j).state
  ok (record s { jobs = set_job j (record (s.jobs j) { state = state }) s.jobs })

abbrev pub set_phase : ℕ → JobExecuter → Phase → JobManager → JobManager
set_phase i x phase s = record s { executers = set s.executers i (record x { phase = phase }) }

-- The first two statements of JobExecuter.run. The first may raise, which ends the thread.
pub after_setup : ℕ → JobExecuter → JobManager → Result JobManager → JobManager
after_setup i x s (err e) = set_phase i x crashed s
after_setup i x s (ok s') =
    set_phase i x working (record s' {
      jobs = set_job x.job (record (s'.jobs x.job) { machines = x.machines }) s'.jobs;
    })

unfoldable pub begin : ℕ → JobExecuter → JobManager → JobManager
begin i x s = after_setup i x s (set_status x.job setup s)

-- A later change of state: to copying, running, succeeded or failed. The last two end the `try`.
abbrev pub next_phase : JobStatus → Phase
next_phase succeeded = finished
next_phase failed = finished
next_phase new_status = working

unfoldable pub advance : ℕ → JobExecuter → JobStatus → JobManager → Result JobManager
advance i x new_status s = do
  s' ← set_status x.job new_status s
  ok (set_phase i x (next_phase new_status) s')

-- The successors that are ready and not queued yet are queued.
pub queue_successors : List ℕ → JobManager → JobManager
queue_successors [] s = s
queue_successors (j ∷ js) s = queue_successors js (
    if is_ready s j && not (contains s.ready_jobs j)
    then record s { ready_jobs = j ∷ s.ready_jobs }
    else s)

-- NotifyJobComplete, with the machines that have been given back to `pool`.
abbrev pub queue_next : ℕ → JobExecuter → JobManager → Pool → JobManager
queue_next i x s pool =
    let s' = set_phase i x notified (record s { pool = pool }) in
    if status s' x.job ≟ succeeded then queue_successors (s.jobs x.job).successors s' else s'

unfoldable pub notify : ℕ → JobExecuter → JobManager → Result JobManager
notify i x s = do pool ← return_machines (s.jobs x.job).machines s.pool; ok (queue_next i x s pool)

pub has_id : JobManager → ℕ → List ℕ → Bool
has_id s id [] = false
has_id s id (j ∷ js) = ((s.jobs j).id == id) || has_id s id js

-- `for job_ in self.ready_jobs: if job_.id == job_id: self.ready_jobs.remove(job_); break`, from the
-- other end of the list.
pub remove_ready : JobManager → ℕ → List ℕ → List ℕ
remove_ready s id [] = []
remove_ready s id (j ∷ js) =
    let rest = remove_ready s id js in
    if has_id s id js then j ∷ rest else if (s.jobs j).id == id then js else j ∷ rest

-- The executer's Kill.
pub kill_executer : Option ℕ → List JobExecuter → List JobExecuter
kill_executer none executers = executers
kill_executer (some i) executers = elim (get_elem? executers i) [
  | none ↦ executers
  | some x ↦ set executers i (record x { killed = true })
]

-- _KillJob
unfoldable pub kill_job : ℕ → JobManager → JobManager
kill_job id s = record s {
  executers = kill_executer (lookup id s.job_executer_mapping) s.executers;
  ready_jobs = remove_ready s id s.ready_jobs;
}

-- CleanUpJob
unfoldable pub clean_up_job : ℕ → JobManager → JobManager
clean_up_job j s = record s { job_executer_mapping = delete (s.jobs j).id s.job_executer_mapping }

-- StopJobManager, up to the wait for the threads.
pub kill_jobs : List ℕ → JobManager → JobManager
kill_jobs [] s = s
kill_jobs (j ∷ js) s = kill_jobs js (kill_job (s.jobs j).id s)

unfoldable pub stop : JobManager → JobManager
stop s = record (kill_jobs s.all_jobs s) { exit_request = true }
