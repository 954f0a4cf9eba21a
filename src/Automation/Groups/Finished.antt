-- ===== src/Automation/Groups/Finished.antt =====
-- Groups of jobs over the steps of the managers.
use external_toolchain_utils.Automation.Groups.Outcomes.{
  clean_up-jobs, kill_and_clean_up-jobs, finish_group-false,
}
use external_toolchain_utils.Automation.Jobs.Lasting.{add_job-Extends, Step-Extends}
use external_toolchain_utils.Automation.Groups.{
  clean_up, kill_and_clean_up, group_status, set_group, set_group_status, JobGroup, all_finished,
  add_job_group, notify_group, JobGroupManager, add_jobs, finish_group, fail_group,
}
use external_toolchain_utils.Prelude.{
  ℕ, ◌+◌, ◌≡◌, sym, ◌∙◌, ◌≢◌, inl, inr, Bool, true, false, List, [], ◌∷◌, ◌++◌, ◌>>=◌, parts_of_ok,
  ok_injective, if◌then◌else◌, Bool-cases, if-both, assertion_error, ok, err, nat_eq, ◌≟◌, Eq-cases,
}
use external_toolchain_utils.Automation.StateMachine.{
  succeeded, failed, group_executing, group_succeeded, group_failed, job_status_eq, group_status_eq,
}
use external_toolchain_utils.Automation.Jobs.{add_job, all_succeeded, JobManager, Job, status}
use external_toolchain_utils.Automation.Groups.Statuses.{
  all_finished_lem, set_group-ne, set_group_self, set_group_status_lem, all_done, some_failed,
  some_left,
}
use external_toolchain_utils.Automation.Jobs.Effects.{
  all_succeeded-Extends, Extends-trans, Extends-refl, Extends,
}
use external_toolchain_utils.Automation.Jobs.Steps.{Step}
use external_toolchain_utils.Automation.Groups.Statuses.{Verdict}
use mathlib.Core.Path.{subst}
use external_toolchain_utils.Prelude.Equality.{beq_false}
use Prim.Native.String.{String}

-- A step of the job manager's threads, a new group, and a notification.
pub data GroupStep (fnmatch : String → String → Bool) (s s' : JobGroupManager) : Type 0 where
  job_step :
      (m : JobManager)
      → Step fnmatch s.job_manager m
      → s' ≡ record s { job_manager = m }
      → GroupStep fnmatch s s'
  add_group_step : (g : ℕ) → add_job_group g s ≡ ok s' → GroupStep fnmatch s s'
  notify_group_step : (j : ℕ) → notify_group j s ≡ ok s' → GroupStep fnmatch s s'

pub data GroupSteps (fnmatch : String → String → Bool) (s : JobGroupManager)
    : JobGroupManager → Type 0 where
  no_group_steps : GroupSteps fnmatch s s
  one_group_more :
      {t u : JobGroupManager}
      → GroupSteps fnmatch s t
      → GroupStep fnmatch t u
      → GroupSteps fnmatch s u

-- All the jobs of a group that has succeeded have succeeded.
abbrev pub IsFinished : (ℕ → Job) → (ℕ → JobGroup) → Type 0
IsFinished jobs groups =
    (g : ℕ) → (groups g).state.state ≡ group_succeeded → all_succeeded jobs (groups g).jobs ≡ true

IsFinished-Extends :
    {jobs jobs' : ℕ → Job} (groups : ℕ → JobGroup)
    → Extends jobs jobs'
    → IsFinished jobs groups
    → IsFinished jobs' groups
IsFinished-Extends groups ext h g e = all_succeeded-Extends (groups g).jobs ext (h g e)

-- A group comes to a state that is right for it.
IsFinished-set :
    (jobs : ℕ → Job) (g : ℕ) (group : JobGroup) (groups : ℕ → JobGroup)
    → (group.state.state ≡ group_succeeded → all_succeeded jobs group.jobs ≡ true)
    → IsFinished jobs groups
    → IsFinished jobs (set_group g group groups)
IsFinished-set jobs g group groups here h i = elim (Eq-cases i g) [
  | inl same ↦ rw (same, set_group_self g group groups) here
  | inr other ↦ rw (set_group-ne g group groups i other) (h i)
]

add_jobs-Extends : (js : List ℕ) (m : JobManager) → Extends m.jobs (add_jobs js m).jobs
unfolding add_jobs
add_jobs-Extends [] m = Extends-refl m.jobs
add_jobs-Extends (j ∷ js) m =
    Extends-trans (add_job-Extends j m) (add_jobs-Extends js (add_job j m))

executing-ne-succeeded : group_executing ≢ group_succeeded
executing-ne-succeeded e = cc

failed-ne-succeeded : group_failed ≢ group_succeeded
failed-ne-succeeded e = cc

add_job_group-IsFinished :
    (g : ℕ) (s s' : JobGroupManager)
    → add_job_group g s ≡ ok s'
    → IsFinished s.job_manager.jobs s.groups
    → IsFinished s'.job_manager.jobs s'.groups
unfolding add_job_group
add_job_group-IsFinished g s s' done h =
    let group = record (s.groups g) { id = s.next_id } in
    let t : JobGroupManager = record s {
      groups = set_group g group s.groups;
      next_id = s.next_id + 1;
      all_job_groups = s.all_job_groups ++ g ∷ [];
      job_manager = add_jobs group.jobs s.job_manager;
    } in
    let (state, same, now) = set_group_status_lem g group_executing t s' done in
    let first = IsFinished-Extends s.groups (add_jobs-Extends group.jobs s.job_manager) h in
    subst (λ u. IsFinished u.job_manager.jobs u.groups) (sym same)
      (IsFinished-set t.job_manager.jobs g (record (t.groups g) { state = state }) t.groups
        (λ e. absurd (executing-ne-succeeded (sym now ∙ e)))
        (IsFinished-set t.job_manager.jobs g group s.groups (first g) first))

fail_group-IsFinished :
    (g : ℕ) (s s' : JobGroupManager)
    → fail_group g s ≡ ok s'
    → IsFinished s.job_manager.jobs s.groups
    → IsFinished s'.job_manager.jobs s'.groups
unfolding fail_group
fail_group-IsFinished g s s' done h =
    let (t, changed, rest) =
      parts_of_ok (set_group_status g group_failed s)
        (λ t. ok (
          if (s.groups g).cleanup_on_failure
          then record t { job_manager = kill_and_clean_up (s.groups g).jobs t.job_manager }
          else t))
        done in
    let (state, same, now) = set_group_status_lem g group_failed s t changed in
    let k : IsFinished t.job_manager.jobs t.groups =
      subst (λ u. IsFinished u.job_manager.jobs u.groups) (sym same)
        (IsFinished-set s.job_manager.jobs g (record (s.groups g) { state = state }) s.groups
          (λ e. absurd (failed-ne-succeeded (sym now ∙ e))) h) in
    subst (λ u. IsFinished u.job_manager.jobs u.groups) (ok_injective rest)
      (if-both (λ (u : JobGroupManager). IsFinished u.job_manager.jobs u.groups)
        (s.groups g).cleanup_on_failure
        (rw (kill_and_clean_up-jobs (s.groups g).jobs t.job_manager) k) k)

finish_group-IsFinished :
    (g : ℕ) (s s' : JobGroupManager)
    → finish_group g true s ≡ ok s'
    → all_succeeded s.job_manager.jobs (s.groups g).jobs ≡ true
    → IsFinished s.job_manager.jobs s.groups
    → IsFinished s'.job_manager.jobs s'.groups
unfolding finish_group
finish_group-IsFinished g s s' done all h = elim (Eq-cases (group_status s g) group_succeeded) [
  | inl already ↦
      let e : ok s ≡ ok s' = rw already at done in
      subst (λ u. IsFinished u.job_manager.jobs u.groups) (ok_injective e) h
  | inr running_ ↦
      let test : group_status s g ≟ group_succeeded ≡ false =
        beq_false (group_status s g) group_succeeded running_ in
      let (t, changed, rest) =
        parts_of_ok (set_group_status g group_succeeded s)
          (λ t. ok (
            if (s.groups g).cleanup_on_completion
            then record t { job_manager = clean_up (s.groups g).jobs t.job_manager }
            else t))
          (rw test at done) in
      let (state, same, now) = set_group_status_lem g group_succeeded s t changed in
      let k : IsFinished t.job_manager.jobs t.groups =
        subst (λ u. IsFinished u.job_manager.jobs u.groups) (sym same)
          (IsFinished-set s.job_manager.jobs g (record (s.groups g) { state = state }) s.groups
            (λ e. all) h) in
      subst (λ u. IsFinished u.job_manager.jobs u.groups) (ok_injective rest)
        (if-both (λ (u : JobGroupManager). IsFinished u.job_manager.jobs u.groups)
          (s.groups g).cleanup_on_completion (rw (clean_up-jobs (s.groups g).jobs t.job_manager) k)
          k)
]

notify_group-IsFinished :
    (j : ℕ) (s s' : JobGroupManager)
    → notify_group j s ≡ ok s'
    → IsFinished s.job_manager.jobs s.groups
    → IsFinished s'.job_manager.jobs s'.groups
unfolding notify_group
notify_group-IsFinished j s s' done h =
    elim (Bool-cases (group_status s (s.group_of j) ≟ group_failed)) [
      | inl over ↦
          let e : ok s ≡ ok s' = rw over at done in
          subst (λ u. IsFinished u.job_manager.jobs u.groups) (ok_injective e) h
      | inr open_ ↦ elim (Bool-cases (status s.job_manager j ≟ failed)) [
        | inl lost ↦ fail_group-IsFinished (s.group_of j) s s' (rw (open_, lost) at done) h
        | inr kept ↦ elim (Bool-cases (status s.job_manager j ≟ succeeded)) [
          | inl won ↦
              decided (all_finished_lem s.job_manager.jobs (s.groups (s.group_of j)).jobs)
                (rw (open_, kept, won) at done)
          | inr neither ↦
              absurd (let e : err assertion_error ≡ ok s' = rw (open_, kept, neither) at done in cc)
        ]
      ]
    ]
  where
    decided :
        Verdict s.job_manager.jobs
          (s.groups (s.group_of j)).jobs
          (all_finished s.job_manager.jobs (s.groups (s.group_of j)).jobs)
        → (all_finished s.job_manager.jobs (s.groups (s.group_of j)).jobs >>= λ finished.
            finish_group (s.group_of j) finished s)
          ≡ ok s'
        → IsFinished s'.job_manager.jobs s'.groups
    decided (all_done all e) d = finish_group-IsFinished (s.group_of j) s s' (rw e at d) all h
    decided (some_failed first lost e) d =
        absurd (let p : err assertion_error ≡ ok s' = rw e at d in cc)
    decided (some_left first kept e) d =
        let p : finish_group (s.group_of j) false s ≡ ok s' = rw e at d in
        subst (λ u. IsFinished u.job_manager.jobs u.groups)
          (ok_injective (sym (finish_group-false (s.group_of j) s) ∙ p)) h

-- In every run of the two managers' steps, in any order, all the jobs of a group that has succeeded
-- have succeeded, if it is so at the start.
pub GroupSteps-IsFinished :
    (fnmatch : String → String → Bool) (s s' : JobGroupManager)
    → GroupSteps fnmatch s s'
    → IsFinished s.job_manager.jobs s.groups
    → IsFinished s'.job_manager.jobs s'.groups
GroupSteps-IsFinished fnmatch s s' no_group_steps h = h
GroupSteps-IsFinished fnmatch s s' (one_group_more {t} before (job_step m step e)) h =
    let k = GroupSteps-IsFinished fnmatch s t before h in
    subst (λ u. IsFinished u.job_manager.jobs u.groups) (sym e)
      (IsFinished-Extends t.groups (Step-Extends fnmatch t.job_manager m step) k)
GroupSteps-IsFinished fnmatch s s' (one_group_more {t} before (add_group_step g e)) h =
    add_job_group-IsFinished g t s' e (GroupSteps-IsFinished fnmatch s t before h)
GroupSteps-IsFinished fnmatch s s' (one_group_more {t} before (notify_group_step j e)) h =
    notify_group-IsFinished j t s' e (GroupSteps-IsFinished fnmatch s t before h)
