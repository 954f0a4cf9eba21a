-- ===== src/Automation/Jobs/Order.antt =====
-- Jobs and their predecessors, over the steps of automation/server/job_manager.py and
-- automation/server/job_executer.py.
pub mod Queue
use external_toolchain_utils.Automation.Jobs.Effects.Threads.{advance_lem, begin_lem}
use external_toolchain_utils.Automation.Jobs.Loop.{start_jobs-keeps}
use external_toolchain_utils.Automation.Machines.{return_machines, Pool}
use external_toolchain_utils.Automation.Jobs.Order.Queue.{
  set_phase-IsOrdered, start_job-IsOrdered, add_job-IsOrdered, IsOrdered-Extends, IsOrdered,
}
use external_toolchain_utils.Prelude.{
  ℕ, ◌≡◌, refl, sym, ◌∙◌, inl, Bool, true, false, some, get_elem?, if◌then◌else◌, ok, nat_eq, ◌≟◌,
}
use external_toolchain_utils.Prelude.Equality.{
  contains-cons, contains-snoc, contains-cons_self, contains-cons_of,
}
use external_toolchain_utils.Prelude.Dict.{lookup}
use external_toolchain_utils.Automation.StateMachine.{job_status_eq, succeeded}
use external_toolchain_utils.Automation.Jobs.{
  stop, next_phase, set_phase, queue_successors, clean_up_job, JobExecuter, run_round, kill_job,
  JobManager, notify, status, starting, notified,
}
use external_toolchain_utils.Automation.Jobs.Steps.{
  kill_jobs-keeps, notify_parts, queue_successors_lem, Steps-keeps, Steps, add_step, run_step,
  begin_step, advance_step, notify_step, kill_step, clean_step, stop_step, Step,
}
use external_toolchain_utils.Automation.Jobs.Effects.{
  queue_successors-source, kill_executer-job, remove_ready-contains, Extends-refl, Extends,
}
use mathlib.Core.Path.{subst}
use Prim.Native.String.{String}

notify-IsOrdered :
    (i : ℕ) (x : JobExecuter) (s s' : JobManager)
    → get_elem? s.executers i ≡ some x
    → notify i x s ≡ ok s'
    → IsOrdered s
    → IsOrdered s'
unfolding notify
notify-IsOrdered i x s s' at done h =
    let (pool, returned, rest) = notify_parts i x s s' done in
    subst IsOrdered rest (go (status s x.job ≟ succeeded) pool)
  where
    go :
        (b : Bool) (pool : Pool)
        → IsOrdered (
            if b
            then queue_successors
                (s.jobs x.job).successors
                (set_phase i x notified (record s { pool = pool }))
            else set_phase i x notified (record s { pool = pool }))
    go false pool =
        let k =
          set_phase-IsOrdered i x notified s s.jobs s.ready_jobs at (Extends-refl s.jobs)
            (λ j e. inl e) h in
        record { queue = k.queue; started = k.started }
    go true pool =
        let t = set_phase i x notified (record s { pool = pool }) in
        let (ready, e) = queue_successors_lem (s.jobs x.job).successors t in
        let k =
          set_phase-IsOrdered i x notified s s.jobs ready at (Extends-refl s.jobs)
            (λ j c. queue_successors-source (s.jobs x.job).successors t j (rw e c)) h in
        subst IsOrdered (sym e) (record { queue = k.queue; started = k.started })

kill_job-IsOrdered : (id : ℕ) (s : JobManager) → IsOrdered s → IsOrdered (kill_job id s)
unfolding kill_job
kill_job-IsOrdered id s h =
    IsOrdered-Extends s (kill_job id s) (Extends-refl s.jobs)
      (λ j at. inl (remove_ready-contains s id s.ready_jobs j at))
      (λ n z at.
        let (w, old, same) =
          kill_executer-job (lookup id s.job_executer_mapping) s.executers n z at in
        inl (w, n, old, same))
      h

Step-IsOrdered :
    (fnmatch : String → String → Bool) (s s' : JobManager)
    → Step fnmatch s s'
    → IsOrdered s
    → IsOrdered s'
unfolding run_round clean_up_job stop
Step-IsOrdered fnmatch s s' (add_step j e) h = subst IsOrdered (sym e) (add_job-IsOrdered j s h)
Step-IsOrdered fnmatch s s' (run_step runs e) h = subst IsOrdered (sym e) (
    start_jobs-keeps fnmatch IsOrdered
      (λ j js t t' more queue k p. start_job-IsOrdered fnmatch j js t t' more queue k p)
      s.ready_jobs s refl h)
Step-IsOrdered fnmatch s s' (begin_step i x at phase e) h =
    let (next, jobs', same, ext, back) = begin_lem i x s in
    subst IsOrdered (sym same ∙ sym e)
      (set_phase-IsOrdered i x next s jobs' s.ready_jobs at ext (λ j c. inl c) h)
Step-IsOrdered fnmatch s s' (advance_step i x new_status at phase e) h =
    let (jobs', same, ext, now, others) = advance_lem i x new_status s s' e in
    subst IsOrdered (sym same)
      (set_phase-IsOrdered i x (next_phase new_status) s jobs' s.ready_jobs at ext (λ j c. inl c) h)
Step-IsOrdered fnmatch s s' (notify_step i x at phase e) h = notify-IsOrdered i x s s' at e h
Step-IsOrdered fnmatch s s' (kill_step id e) h = subst IsOrdered (sym e) (kill_job-IsOrdered id s h)
Step-IsOrdered fnmatch s s' (clean_step j e) h =
    subst IsOrdered (sym e) (record { queue = h.queue; started = h.started })
Step-IsOrdered fnmatch s s' (stop_step e) h =
    let k = kill_jobs-keeps IsOrdered kill_job-IsOrdered s.all_jobs s h in
    subst IsOrdered (sym e) (record { queue = k.queue; started = k.started })

-- In every run of the manager's steps, in any order, a job that is queued and a job that has an
-- executer have all their predecessors succeeded, if it is so at the start.
pub Steps-IsOrdered :
    (fnmatch : String → String → Bool) (s s' : JobManager)
    → IsOrdered s
    → Steps fnmatch s s'
    → IsOrdered s'
Steps-IsOrdered fnmatch s s' h steps = Steps-keeps IsOrdered (Step-IsOrdered fnmatch) s s' steps h
