-- ===== src/Automation/Groups.antt =====
-- automation/server/job_group_manager.py with automation/common/job_group.py: groups of jobs on a job
-- manager. A group object is a number, like a job. NotifyJobComplete holds the lock of the
-- groups and is one step, and so is AddJobGroup, which takes the id in a hold of its own before.
-- Commands and folders are left out, the wait of KillJobGroup too.
pub mod Statuses
pub mod Outcomes
pub mod Finished
mod Tests
use external_toolchain_utils.Prelude.{
  ℕ, ◌+◌, Bool, true, false, not, ◌&&◌, List, [], ◌∷◌, ◌++◌, Result, ◌>>=◌, ◌>>◌, assert, ◌==◌,
  if◌then◌else◌, assertion_error, ok, err, nat_eq, ◌≟◌,
}
use external_toolchain_utils.Automation.StateMachine.{
  BasicStateMachine, GroupStatus, group_table, JobStatus, change, succeeded, failed,
  group_executing, group_succeeded, group_failed, job_status_eq, group_status_eq,
}
use external_toolchain_utils.Automation.Jobs.{JobManager, Job, status, add_job, clean_up_job}

pub record JobGroup : Type 0 where
  pub id : ℕ
  pub state : BasicStateMachine GroupStatus
  pub jobs : List ℕ
  pub cleanup_on_completion : Bool
  pub cleanup_on_failure : Bool

-- `group_of` is the field `group` of a job.
pub record JobGroupManager : Type 0 where
  pub job_manager : JobManager
  pub groups : ℕ → JobGroup
  pub group_of : ℕ → ℕ
  pub all_job_groups : List ℕ
  pub next_id : ℕ

abbrev pub group_status : JobGroupManager → ℕ → GroupStatus
group_status s g = (s.groups g).state.state

-- A write to an object.
abbrev pub set_group : ℕ → JobGroup → (ℕ → JobGroup) → ℕ → JobGroup
set_group g group groups i = if i == g then group else groups i

-- `group.status = new_status`
unfoldable pub set_group_status : ℕ → GroupStatus → JobGroupManager → Result JobGroupManager
set_group_status g new_status s = do
  state ← change group_table new_status (s.groups g).state
  ok (record s { groups = set_group g (record (s.groups g) { state = state }) s.groups })

pub add_jobs : List ℕ → JobManager → JobManager
add_jobs [] m = m
add_jobs (j ∷ js) m = add_jobs js (add_job j m)

-- AddJobGroup
unfoldable pub add_job_group : ℕ → JobGroupManager → Result JobGroupManager
add_job_group g s =
    let group = record (s.groups g) { id = s.next_id } in
    set_group_status g group_executing (record s {
      groups = set_group g group s.groups;
      next_id = s.next_id + 1;
      all_job_groups = s.all_job_groups ++ g ∷ [];
      job_manager = add_jobs group.jobs s.job_manager;
    })

-- The calls of KillJob in this file pass a job, and no id equals it: nothing is killed.
abbrev pub kill_job_object : ℕ → JobManager → JobManager
kill_job_object j m = m

pub kill_and_clean_up : List ℕ → JobManager → JobManager
kill_and_clean_up [] m = m
kill_and_clean_up (j ∷ js) m = kill_and_clean_up js (clean_up_job j (kill_job_object j m))

pub clean_up : List ℕ → JobManager → JobManager
clean_up [] m = m
clean_up (j ∷ js) m = clean_up js (clean_up_job j m)

-- `for other_job in group.jobs`: have all the jobs succeeded? A failed job that the loop comes to fails
-- the assertion.
pub all_finished : (ℕ → Job) → List ℕ → Result Bool
all_finished jobs [] = ok true
all_finished jobs (j ∷ js) =
    let rest = all_finished jobs js in
    if (jobs j).state.state ≟ failed
    then err assertion_error
    else if (jobs j).state.state ≟ succeeded
    then rest
    else ok false

-- The branch for a failed job.
unfoldable pub fail_group : ℕ → JobGroupManager → Result JobGroupManager
fail_group g s = do
  s' ← set_group_status g group_failed s
  ok (
      if (s.groups g).cleanup_on_failure
      then record s' { job_manager = kill_and_clean_up (s.groups g).jobs s'.job_manager }
      else s')

-- The branch for a job that succeeded, from the end of the loop on.
unfoldable pub finish_group : ℕ → Bool → JobGroupManager → Result JobGroupManager
finish_group g finished s =
    let finish = (do
      s' ← set_group_status g group_succeeded s
      ok (
          if (s.groups g).cleanup_on_completion
          then record s' { job_manager = clean_up (s.groups g).jobs s'.job_manager }
          else s')) in
    if finished && not (group_status s g ≟ group_succeeded) then finish else ok s

-- NotifyJobComplete
unfoldable pub notify_group : ℕ → JobGroupManager → Result JobGroupManager
notify_group j s =
    let g = s.group_of j in
    if group_status s g ≟ group_failed
    then ok s
    else if status s.job_manager j ≟ failed
    then fail_group g s
    else assert (status s.job_manager j ≟ succeeded)
      >> (all_finished s.job_manager.jobs (s.groups g).jobs >>= λ finished.
          finish_group g finished s)
