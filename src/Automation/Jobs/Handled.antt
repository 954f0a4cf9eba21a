-- ===== src/Automation/Jobs/Handled.antt =====
-- The jobs that are ready, over the steps of automation/server/job_manager.py and
-- automation/server/job_executer.py.
pub mod Queue
pub mod Threads
pub mod Notices
use external_toolchain_utils.Automation.Jobs.Lasting.{Step-run_ended}
use external_toolchain_utils.Automation.Jobs.Handled.Notices.{notify-IsComplete}
use external_toolchain_utils.Automation.Jobs.Handled.Threads.{advance-IsComplete, begin-IsComplete}
use external_toolchain_utils.Automation.Jobs.Loop.{start_jobs-keeps}
use external_toolchain_utils.Automation.Jobs.Accounts.Threads.{get_elem?-some-lt}
use external_toolchain_utils.Automation.Jobs.Effects.Threads.{begin_lem, advance_lem}
use external_toolchain_utils.Prelude.{ℕ, ◌≡◌, refl, sym, ap, ◌∙◌, Bool, false}
use external_toolchain_utils.Prelude.Equality.{
  contains-cons, contains-cons_self, contains-cons_of, contains-nil,
}
use external_toolchain_utils.Automation.StateMachine.{JobStatus, job_status_eq, succeeded}
use external_toolchain_utils.Automation.Jobs.{
  clean_up_job, run_round, next_phase, set_phase, begin, advance, is_ready, JobManager, Job,
  all_succeeded, JobExecuter, queue_successors, status, starting, working, notified, finished,
}
use external_toolchain_utils.Automation.Jobs.Steps.{
  Steps, add_step, run_step, begin_step, advance_step, notify_step, kill_step, clean_step,
  stop_step, Step, no_steps, one_more,
}
use external_toolchain_utils.Automation.Jobs.Effects.{IsReady-Extends, IsReady, Extends}
use external_toolchain_utils.Automation.Jobs.Handled.Queue.{
  start_job-run_ended, IsHandled, start_job-IsComplete, add_job-IsComplete, Extends-back,
  Remains-set, IsComplete-Remains, IsComplete, is_queued, is_started, is_pending,
}
use mathlib.Core.Path.{subst}
use Prim.Native.String.{String}

-- Nobody kills a job or stops the manager.
abbrev pub KillsNone :
    {fnmatch : String → String → Bool} {s s' : JobManager} → Steps fnmatch s s' → Type 0
KillsNone no_steps = Unit
KillsNone (one_more before (add_step j e)) = KillsNone before
KillsNone (one_more before (run_step runs e)) = KillsNone before
KillsNone (one_more before (begin_step i x at phase e)) = KillsNone before
KillsNone (one_more before (advance_step i x new_status at phase e)) = KillsNone before
KillsNone (one_more before (notify_step i x at phase e)) = KillsNone before
KillsNone (one_more before (kill_step id e)) = ⊥
KillsNone (one_more before (clean_step j e)) = KillsNone before
KillsNone (one_more before (stop_step e)) = ⊥

-- In every run without kills, without a stop and in which no round of the loop has raised, a job that
-- has been added and is ready is queued, has an executer, or is a successor of a succeeded job of whose
-- end the manager is still to be notified: none is lost. It is so at the end if it is so at the start
-- and the dependencies are linked both ways.
pub Steps-IsComplete :
    (fnmatch : String → String → Bool) (s s' : JobManager) (steps : Steps fnmatch s s')
    → KillsNone steps
    → s'.run_ended ≡ false
    → IsComplete s
    → IsComplete s'
unfolding run_round clean_up_job
Steps-IsComplete fnmatch s s' no_steps quiet runs h = h
Steps-IsComplete fnmatch s s' (one_more {t} before (add_step j e)) quiet runs h =
    let still = Step-run_ended fnmatch t s' (add_step j e) runs in
    subst IsComplete (sym e)
      (add_job-IsComplete j t (Steps-IsComplete fnmatch s t before quiet still h))
Steps-IsComplete fnmatch s s' (one_more {t} before (run_step still e)) quiet runs h =
    let all =
      start_jobs-keeps fnmatch (λ u. u.run_ended ≡ false → IsComplete u)
        (λ j js u u' more queue k p r.
          start_job-IsComplete fnmatch j js u u' more queue
            (k (start_job-run_ended fnmatch j js u u' more p r)) p r)
        t.ready_jobs t refl (λ _. Steps-IsComplete fnmatch s t before quiet still h) in
    subst IsComplete (sym e) (all (ap (λ u. u.run_ended) (sym e) ∙ runs))
Steps-IsComplete fnmatch s s' (one_more {t} before (begin_step i x at phase e)) quiet runs h =
    let still = Step-run_ended fnmatch t s' (begin_step i x at phase e) runs in
    subst IsComplete (sym e)
      (begin-IsComplete i x t at phase (Steps-IsComplete fnmatch s t before quiet still h))
Steps-IsComplete fnmatch s s' (one_more {t} before (advance_step i x new_status at phase e)) quiet
      runs h =
    let still = Step-run_ended fnmatch t s' (advance_step i x new_status at phase e) runs in
    advance-IsComplete i x new_status t s' at phase e
      (Steps-IsComplete fnmatch s t before quiet still h)
Steps-IsComplete fnmatch s s' (one_more {t} before (notify_step i x at phase e)) quiet runs h =
    let still = Step-run_ended fnmatch t s' (notify_step i x at phase e) runs in
    notify-IsComplete i x t s' at e (Steps-IsComplete fnmatch s t before quiet still h)
Steps-IsComplete fnmatch s s' (one_more before (kill_step id e)) quiet runs h = absurd quiet
Steps-IsComplete fnmatch s s' (one_more before (stop_step e)) quiet runs h = absurd quiet
Steps-IsComplete fnmatch s s' (one_more {t} before (clean_step j e)) quiet runs h =
    let still = Step-run_ended fnmatch t s' (clean_step j e) runs in
    let k = Steps-IsComplete fnmatch s t before quiet still h in
    subst IsComplete (sym e)
      (record { linked = k.linked; handled = λ i there ready. moved (k.handled i there ready) })
  where
    moved : {i : ℕ} → IsHandled t i → IsHandled (clean_up_job j t) i
    moved (is_queued q) = is_queued q
    moved (is_started n x at same) = is_started n x at same
    moved (is_pending n x at phase won next) = is_pending n x at phase won next
