-- ===== src/Automation/StateMachine/Tests.antt =====
-- A job that runs, and one that is changed in the wrong order.
use external_toolchain_utils.Automation.StateMachine.History.{
  change_lem, Answer, same, step, Follows-rank, rank, IsConsistent,
}
use external_toolchain_utils.Automation.StateMachine.{
  running, change, copying, job_status_eq, job_table, not_executed, failed, JobStatus,
  start_machine, BasicStateMachine, setup,
}
use external_toolchain_utils.Prelude.{
  ◌<◌, ◌≡◌, refl, ◌⊎◌, true, false, assertion_error, err, nat_eq, contains,
}

abbrev fresh : BasicStateMachine JobStatus
fresh = start_machine not_executed

fresh-IsConsistent : IsConsistent job_table fresh
unfolding start_machine
fresh-IsConsistent = (false, (refl, refl))

change_lem_example : Answer job_table fresh copying (change job_table copying fresh)
change_lem_example = change_lem job_table fresh copying fresh-IsConsistent

Follows-rank_example : (setup ≡ failed) ⊎ (rank setup < rank failed)
Follows-rank_example = Follows-rank setup failed (step same failed_ok)
  where
    failed_ok : contains (job_table.transitions setup) failed ≡ true
    failed_ok = unfold contains in refl

wrong_order : change job_table running fresh ≡ err assertion_error
unfolding change contains start_machine
wrong_order = refl
