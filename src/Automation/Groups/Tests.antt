-- ===== src/Automation/Groups/Tests.antt =====
-- A group of one job.
use external_toolchain_utils.Automation.Groups.Outcomes.{GroupOutcome, notify_group_lem}
use external_toolchain_utils.Automation.Groups.{
  clean_up, all_finished, set_group_status, finish_group, notify_group, JobGroupManager,
}
use external_toolchain_utils.Prelude.{
  refl, ◌≢◌, inr, Bool, true, false, [], ◌∷◌, Result, ok, err, nat_eq, contains,
}
use external_toolchain_utils.Automation.StateMachine.{
  GroupStatus, JobStatus, succeeded, group_executing, group_succeeded, job_status_eq,
  group_status_eq, change, transition_allowed,
}
use external_toolchain_utils.Automation.Jobs.{Job}
use external_toolchain_utils.Automation.Groups.Finished.{
  GroupSteps, GroupSteps-IsFinished, IsFinished, notify_group_step, no_group_steps, one_group_more,
}
use Prim.Native.String.{String}

abbrev any : String → String → Bool
any name pattern = true

abbrev job_in : JobStatus → Job
job_in state = record {
  id = 1;
  state = record { state = state; timeline = [] };
  predecessors = [];
  successors = [];
  machine_dependencies = [];
  machines = [];
}

abbrev managers : JobStatus → GroupStatus → JobGroupManager
managers job_state group_state = record {
  job_manager = record {
    jobs = λ j. job_in job_state;
    all_jobs = 0 ∷ [];
    ready_jobs = [];
    job_executer_mapping = [];
    executers = [];
    pool = [];
    next_id = 2;
    exit_request = false;
    run_ended = false;
  };
  groups = λ g. record {
    id = 1;
    state = record { state = group_state; timeline = [] };
    jobs = 0 ∷ [];
    cleanup_on_completion = true;
    cleanup_on_failure = false;
  };
  group_of = λ j. 0;
  all_job_groups = 0 ∷ [];
  next_id = 2;
}

notify_group_lem_example :
    GroupOutcome 0
      (managers succeeded group_executing)
      (notify_group 0 (managers succeeded group_executing))
notify_group_lem_example = notify_group_lem 0 (managers succeeded group_executing) refl (inr refl)

-- The group manager that a call leads to.
abbrev after : Result JobGroupManager → JobGroupManager → JobGroupManager
after (ok s') s = s'
after (err e) s = s

abbrev closed : JobGroupManager
closed =
    after (notify_group 0 (managers succeeded group_executing)) (managers succeeded group_executing)

run_up_to_closed : GroupSteps any (managers succeeded group_executing) closed
unfolding notify_group finish_group set_group_status change transition_allowed all_finished contains
    clean_up
run_up_to_closed = one_group_more no_group_steps (notify_group_step 0 refl)

executing-ne-succeeded : group_executing ≢ group_succeeded
executing-ne-succeeded e = cc

GroupSteps-IsFinished_example : IsFinished closed.job_manager.jobs closed.groups
GroupSteps-IsFinished_example =
    GroupSteps-IsFinished any (managers succeeded group_executing) closed run_up_to_closed
      (λ g e. absurd (executing-ne-succeeded e))
