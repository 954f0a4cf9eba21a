-- ===== src/Automation/Jobs/Tests.antt =====
-- Two jobs, of which the second waits for the first, and one machine.
use external_toolchain_utils.Automation.Jobs.Balance.{notify-returns, Steps-IsAccounted}
use external_toolchain_utils.Prelude.Count.{count_of}
use external_toolchain_utils.Automation.Jobs.Order.{Steps-IsOrdered}
use external_toolchain_utils.Automation.Jobs.Accounts.{IsAccounted}
use external_toolchain_utils.Automation.Jobs.Handled.{Steps-IsComplete, KillsNone}
use external_toolchain_utils.Automation.Jobs.Handled.Queue.{IsComplete}
use external_toolchain_utils.Automation.Jobs.Order.Queue.{IsOrdered}
use external_toolchain_utils.Prelude.{
  ℕ, zero, suc, ◌+◌, ◌≡◌, refl, Bool, true, false, some, [], ◌∷◌, arith, get_elem?, Result,
  true-false, ok, err, nat_eq, contains,
}
use external_toolchain_utils.Automation.StateMachine.{
  finish_last, add_event, transition_allowed, change, not_executed, copying, running, succeeded,
  job_status_eq,
}
use external_toolchain_utils.Automation.Machines.{
  uses_at, all_some, conclude, update_at, acquire_chosen, min_by_uses, is_match, select, choose,
  get_machine, get_each, get_machines, Machine, MachineSpecification, acquire,
}
use external_toolchain_utils.Automation.Jobs.{
  use_machines, after_preferences, set_status, finished, set_status, after_setup, notify, launch,
  prefer_machines, all_succeeded, start_job, start_jobs, advance, add_job, begin, JobExecuter,
  JobManager, run_round, Job, Phase, starting, working,
}
use external_toolchain_utils.Automation.Jobs.Steps.{
  advance_step, begin_step, run_step, Steps, no_steps, one_more, add_step,
}
use external_toolchain_utils.Prelude.Equality.{contains-nil}
use Prim.Native.String.{String}

abbrev any : String → String → Bool
any name pattern = true

abbrev spare : Machine
spare = record {
  hostname = "spare";
  label = "core2duo";
  cpu = "x86";
  cores = 4;
  os = "linux";
  username = "me";
  uses = 0;
  locked = false;
}

abbrev some_machine : MachineSpecification
some_machine = record {
  hostname = "*";
  label = "*";
  os = "*";
  lock_required = true;
  preferred_machines = [];
}

-- Job 1 depends on job 0.
abbrev two_jobs : ℕ → Job
two_jobs zero = record {
  id = 0;
  state = record { state = not_executed; timeline = [] };
  predecessors = [];
  successors = 1 ∷ [];
  machine_dependencies = some_machine ∷ [];
  machines = [];
}
two_jobs (suc zero) = record {
  id = 0;
  state = record { state = not_executed; timeline = [] };
  predecessors = 0 ∷ [];
  successors = [];
  machine_dependencies = some_machine ∷ [];
  machines = [];
}
two_jobs (suc (suc i)) = record {
  id = 0;
  state = record { state = not_executed; timeline = [] };
  predecessors = [];
  successors = [];
  machine_dependencies = some_machine ∷ [];
  machines = [];
}

abbrev new_manager : JobManager
new_manager = record {
  jobs = two_jobs;
  all_jobs = [];
  ready_jobs = [];
  job_executer_mapping = [];
  executers = [];
  pool = spare ∷ [];
  next_id = 1;
  exit_request = false;
  run_ended = false;
}

-- The manager that a call leads to.
abbrev after : Result JobManager → JobManager → JobManager
after (ok s') s = s'
after (err e) s = s

abbrev thread : Phase → JobExecuter
thread phase = record { job = 0; machines = 0 ∷ []; phase = phase; killed = false }

abbrev added : JobManager
added = add_job 1 (add_job 0 new_manager)

abbrev launched : JobManager
launched = run_round any added

abbrev begun : JobManager
begun = begin 0 (thread starting) launched

abbrev copied : JobManager
copied = after (advance 0 (thread working) copying begun) begun

abbrev ran : JobManager
ran = after (advance 0 (thread working) running copied) copied

abbrev won : JobManager
won = after (advance 0 (thread working) succeeded ran) ran

unfoldable before_run : Steps any new_manager added
before_run = one_more (one_more no_steps (add_step 0 refl)) (add_step 1 refl)

unfoldable run_up_to_won : Steps any new_manager won
unfolding run_round start_jobs start_job use_machines after_preferences add_job all_succeeded
    prefer_machines get_machines get_each get_machine choose select is_match min_by_uses
    acquire_chosen update_at acquire conclude all_some launch contains begin after_setup set_status
    change transition_allowed add_event finish_last advance
run_up_to_won =
    one_more
      (one_more
        (one_more
          (one_more (one_more before_run (run_step refl refl))
            (begin_step 0 (thread starting) refl refl refl))
          (advance_step 0 (thread working) copying refl refl refl))
        (advance_step 0 (thread working) running refl refl refl))
      (advance_step 0 (thread working) succeeded refl refl refl)

won-finished : get_elem? won.executers 0 ≡ some (thread finished)
unfolding run_round start_jobs start_job use_machines after_preferences add_job all_succeeded
    prefer_machines get_machines get_each get_machine choose select is_match min_by_uses
    acquire_chosen update_at acquire conclude all_some launch contains begin after_setup set_status
    change transition_allowed add_event finish_last advance
won-finished = refl

won-runs : won.run_ended ≡ false
unfolding run_round start_jobs start_job use_machines after_preferences add_job all_succeeded
    prefer_machines get_machines get_each get_machine choose select is_match min_by_uses
    acquire_chosen update_at acquire conclude all_some launch contains begin after_setup set_status
    change transition_allowed add_event finish_last advance
won-runs = refl

notify-returns_example :
    (t : JobManager) × (notify 0 (thread finished) won ≡ ok t)
    × ((k : ℕ) → uses_at t.pool k + count_of k (0 ∷ []) ≡ uses_at won.pool k)
notify-returns_example =
    notify-returns any new_manager won refl run_up_to_won 0 (thread finished) won-finished refl

nothing {ℓ} : {A : Type ℓ} (n : ℕ) {y : A} → get_elem? [] n ≡ some y → ⊥
nothing zero p = cc
nothing (suc n) p = cc

new-IsAccounted : IsAccounted (λ k. uses_at (spare ∷ []) k) new_manager
new-IsAccounted = record { uses = λ k. omega arith; owns = λ n y e. absurd (nothing n e) }

Steps-IsAccounted_example : IsAccounted (λ k. uses_at (spare ∷ []) k) won
Steps-IsAccounted_example =
    Steps-IsAccounted any (λ k. uses_at (spare ∷ []) k) new_manager won new-IsAccounted
      run_up_to_won

Steps-IsOrdered_example : IsOrdered won
Steps-IsOrdered_example =
    Steps-IsOrdered any new_manager won
      (record {
        queue = λ j e. absurd (true-false e (contains-nil j));
        started = λ n y e. absurd (nothing n e);
      })
      run_up_to_won

two_jobs-linked :
    (p j : ℕ)
    → contains (two_jobs j).predecessors p ≡ true
    → contains (two_jobs p).successors j ≡ true
unfolding contains
two_jobs-linked p zero e = absurd (true-false e (contains-nil p))
two_jobs-linked zero (suc zero) e = refl
two_jobs-linked (suc p) (suc zero) e = absurd (ground (arith, e))
two_jobs-linked p (suc (suc j)) e = absurd (true-false e (contains-nil p))

new-IsComplete : IsComplete new_manager
new-IsComplete = record {
  linked = two_jobs-linked;
  handled = λ j e ready. absurd (true-false e (contains-nil j));
}

run_up_to_won-KillsNone : KillsNone run_up_to_won
unfolding run_up_to_won before_run
run_up_to_won-KillsNone = tt

Steps-IsComplete_example : IsComplete won
Steps-IsComplete_example =
    Steps-IsComplete any new_manager won run_up_to_won run_up_to_won-KillsNone won-runs
      new-IsComplete
