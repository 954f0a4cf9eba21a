-- ===== src/Automation/Jobs/Lasting.antt =====
-- What every step of a job manager keeps of its jobs.
use external_toolchain_utils.Automation.Jobs.Handled.Notices.{notify-same}
use external_toolchain_utils.Automation.Jobs.Effects.Threads.{advance_lem, begin_lem}
use external_toolchain_utils.Automation.Jobs.Handled.Queue.{launch-same}
use external_toolchain_utils.Automation.Jobs.Loop.{start_jobs-keeps, start_job_lem}
use external_toolchain_utils.Automation.Jobs.{
  stop, set_job, clean_up_job, kill_job, start_job, run_round, add_job, JobManager,
}
use external_toolchain_utils.Prelude.{ℕ, ◌≡◌, refl, sym, ap, ◌∙◌, Bool, false, List}
use external_toolchain_utils.Automation.Jobs.Steps.{
  kill_jobs-keeps, add_step, run_step, begin_step, advance_step, notify_step, kill_step, clean_step,
  stop_step, Step,
}
use external_toolchain_utils.Automation.Jobs.Effects.{
  Extends-refl, Extends-trans, set_job-Extends, Extends,
}
use external_toolchain_utils.Automation.Jobs.Loop.{Started, has_raised, has_machines}
use external_toolchain_utils.Automation.Machines.{MachineSpecification}
use mathlib.Core.Path.{subst}
use Prim.Native.String.{String}

pub add_job-Extends : (j : ℕ) (s : JobManager) → Extends s.jobs (add_job j s).jobs
unfolding add_job
add_job-Extends j s =
    set_job-Extends j (record (s.jobs j) { id = s.next_id }) s.jobs refl refl (λ e. e)

start_job-Extends :
    (fnmatch : String → String → Bool) (j : ℕ) (js : List ℕ) (s s' : JobManager) (more : Bool)
    → start_job fnmatch j (record s { ready_jobs = js }) ≡ (s', more)
    → Extends s.jobs s'.jobs
start_job-Extends fnmatch j js s s' more done =
    go (start_job_lem fnmatch j (record s { ready_jobs = js }) s' more done)
  where
    ext :
        (specs : List MachineSpecification)
        → Extends s.jobs (set_job j (record (s.jobs j) { machine_dependencies = specs }) s.jobs)
    ext specs =
        set_job-Extends j (record (s.jobs j) { machine_dependencies = specs }) s.jobs refl refl
          (λ e. e)

    go : Started fnmatch j (record s { ready_jobs = js }) s' more → Extends s.jobs s'.jobs
    go (has_raised specs e) = subst (λ r. Extends s.jobs r.0.jobs) e (ext specs)
    go (has_machines specs pool machines got launched) =
        let t : JobManager = record s {
          jobs = set_job j (record (s.jobs j) { machine_dependencies = specs }) s.jobs;
          ready_jobs = js;
          pool = pool;
        } in
        subst (Extends s.jobs) (sym (launch-same j machines t).0 ∙ ap (λ r. r.0.jobs) launched)
          (ext specs)

-- No step changes the dependencies of a job, and a job that has succeeded stays so.
pub Step-Extends :
    (fnmatch : String → String → Bool) (s s' : JobManager)
    → Step fnmatch s s'
    → Extends s.jobs s'.jobs
unfolding run_round kill_job clean_up_job stop
Step-Extends fnmatch s s' (add_step j e) =
    subst (λ u. Extends s.jobs u.jobs) (sym e) (add_job-Extends j s)
Step-Extends fnmatch s s' (run_step runs e) =
    subst (λ u. Extends s.jobs u.jobs) (sym e)
      (start_jobs-keeps fnmatch (λ t. Extends s.jobs t.jobs)
        (λ j js t t' more queue k p. Extends-trans k (start_job-Extends fnmatch j js t t' more p))
        s.ready_jobs s refl (Extends-refl s.jobs))
Step-Extends fnmatch s s' (begin_step i x at phase e) =
    let (next, jobs', same, ext, back) = begin_lem i x s in
    subst (λ u. Extends s.jobs u.jobs) (sym same ∙ sym e) ext
Step-Extends fnmatch s s' (advance_step i x new_status at phase e) =
    let (jobs', same, ext, now, others) = advance_lem i x new_status s s' e in
    subst (λ u. Extends s.jobs u.jobs) (sym same) ext
Step-Extends fnmatch s s' (notify_step i x at phase e) =
    let (pool, queue, same) = notify-same i x s s' at e in
    subst (λ u. Extends s.jobs u.jobs) (sym same) (Extends-refl s.jobs)
Step-Extends fnmatch s s' (kill_step id e) =
    subst (λ u. Extends s.jobs u.jobs) (sym e) (Extends-refl s.jobs)
Step-Extends fnmatch s s' (clean_step j e) =
    subst (λ u. Extends s.jobs u.jobs) (sym e) (Extends-refl s.jobs)
Step-Extends fnmatch s s' (stop_step e) =
    subst (λ u. Extends s.jobs u.jobs) (sym e)
      (kill_jobs-keeps (λ t. Extends s.jobs t.jobs) (λ id t h. h) s.all_jobs s
        (Extends-refl s.jobs))

-- The thread of `run` does not come back.
pub Step-run_ended :
    (fnmatch : String → String → Bool) (s s' : JobManager)
    → Step fnmatch s s'
    → s'.run_ended ≡ false
    → s.run_ended ≡ false
unfolding add_job kill_job clean_up_job stop
Step-run_ended fnmatch s s' (add_step j e) runs = ap (λ u. u.run_ended) (sym e) ∙ runs
Step-run_ended fnmatch s s' (run_step still e) runs = still
Step-run_ended fnmatch s s' (begin_step i x at phase e) runs =
    let (next, jobs', same, ext, back) = begin_lem i x s in
    ap (λ u. u.run_ended) (sym same ∙ sym e) ∙ runs
Step-run_ended fnmatch s s' (advance_step i x new_status at phase e) runs =
    let (jobs', same, ext, now, others) = advance_lem i x new_status s s' e in
    ap (λ u. u.run_ended) (sym same) ∙ runs
Step-run_ended fnmatch s s' (notify_step i x at phase e) runs =
    let (pool, queue, same) = notify-same i x s s' at e in ap (λ u. u.run_ended) (sym same) ∙ runs
Step-run_ended fnmatch s s' (kill_step id e) runs = ap (λ u. u.run_ended) (sym e) ∙ runs
Step-run_ended fnmatch s s' (clean_step j e) runs = ap (λ u. u.run_ended) (sym e) ∙ runs
Step-run_ended fnmatch s s' (stop_step e) runs =
    kill_jobs-keeps (λ t. t.run_ended ≡ false → s.run_ended ≡ false) (λ id t h. h) s.all_jobs s
      (λ r. r) (ap (λ u. u.run_ended) (sym e) ∙ runs)
