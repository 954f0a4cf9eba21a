-- ===== src/Automation/Jobs/Balance.antt =====
-- The books of a job manager over all the steps of its threads: machines in use, and executers that have
-- them.
use external_toolchain_utils.Automation.Jobs.Accounts.Ends.{
  stop-IsAccounted, clean_up_job-IsAccounted, kill_job-IsAccounted, notify_lem,
}
use external_toolchain_utils.Prelude.Count.{count_of}
use external_toolchain_utils.Automation.Machines.{uses_at}
use external_toolchain_utils.Automation.Jobs.Accounts.Threads.{
  advance-IsAccounted, begin-IsAccounted,
}
use external_toolchain_utils.Automation.Jobs.Accounts.Rounds.{
  run_round-IsAccounted, add_job-IsAccounted,
}
use external_toolchain_utils.Automation.Jobs.Accounts.{IsAccounted}
use external_toolchain_utils.Prelude.{
  ℕ, zero, suc, ◌+◌, ◌≡◌, sym, ◌∙◌, Bool, some, [], arith, get_elem?, ok_injective, ok,
}
use external_toolchain_utils.Automation.Jobs.{notify, JobExecuter, JobManager, finished}
use external_toolchain_utils.Automation.Jobs.Steps.{
  Steps-keeps, Steps, Step, add_step, run_step, begin_step, advance_step, notify_step, kill_step,
  clean_step, stop_step,
}
use mathlib.Core.Path.{subst}
use Prim.Native.String.{String}

module _ (fnmatch : String → String → Bool) (base : ℕ → ℕ) where
  Step-IsAccounted :
      (s s' : JobManager) → Step fnmatch s s' → IsAccounted base s → IsAccounted base s'
  Step-IsAccounted s s' (add_step j e) h =
      subst (IsAccounted base) (sym e) (add_job-IsAccounted base j s h)
  Step-IsAccounted s s' (run_step runs e) h =
      subst (IsAccounted base) (sym e) (run_round-IsAccounted base fnmatch s h)
  Step-IsAccounted s s' (begin_step i x at phase e) h =
      subst (IsAccounted base) (sym e) (begin-IsAccounted base i x s at phase h)
  Step-IsAccounted s s' (advance_step i x new_status at phase e) h =
      advance-IsAccounted base i x new_status s s' at phase h e
  Step-IsAccounted s s' (notify_step i x at phase e) h =
      let (t, done, k, back) = notify_lem base i x s at phase h in
      subst (IsAccounted base) (ok_injective (sym done ∙ e)) k
  Step-IsAccounted s s' (kill_step id e) h =
      subst (IsAccounted base) (sym e) (kill_job-IsAccounted base id s h)
  Step-IsAccounted s s' (clean_step j e) h =
      subst (IsAccounted base) (sym e) (clean_up_job-IsAccounted base j s h)
  Step-IsAccounted s s' (stop_step e) h =
      subst (IsAccounted base) (sym e) (stop-IsAccounted base s h)

  -- In every run of the manager's steps, in any order, each machine is in use once for each executer
  -- that has it and has not notified the manager yet, besides the uses that it had before; and an
  -- executer in its try block or after it has the machines of its job.
  pub Steps-IsAccounted :
      (s s' : JobManager) → IsAccounted base s → Steps fnmatch s s' → IsAccounted base s'
  Steps-IsAccounted s s' h steps = Steps-keeps (IsAccounted base) Step-IsAccounted s s' steps h

-- After any run of a manager that starts without executers, NotifyJobComplete does not raise for an
-- executer that has finished, and takes the uses of exactly its machines away.
pub notify-returns :
    (fnmatch : String → String → Bool) (s s' : JobManager)
    → s.executers ≡ []
    → Steps fnmatch s s'
    → (i : ℕ) (x : JobExecuter) → get_elem? s'.executers i ≡ some x
    → x.phase ≡ finished
    → (t : JobManager) × (notify i x s' ≡ ok t)
      × ((k : ℕ) → uses_at t.pool k + count_of k x.machines ≡ uses_at s'.pool k)
notify-returns fnmatch s s' none_yet steps i x at phase =
    let (t, done, rest, back) =
      notify_lem (uses_at s.pool) i x s' at phase
        (Steps-IsAccounted fnmatch (uses_at s.pool) s s' start steps) in
    (t, done, back)
  where
    start : IsAccounted (uses_at s.pool) s
    start = record {
      uses = λ k. rw none_yet (omega arith);
      owns = λ n y e. absurd (let p : get_elem? [] n ≡ some y = rw none_yet at e in nothing n p);
    }
      where
        nothing : (n : ℕ) {y : JobExecuter} → get_elem? [] n ≡ some y → ⊥
        nothing zero p = cc
        nothing (suc n) p = cc
