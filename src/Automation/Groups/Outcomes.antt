-- ===== src/Automation/Groups/Outcomes.antt =====
-- What a notification does to the group of the job.
use external_toolchain_utils.Automation.Groups.{
  set_group, finish_group, fail_group, group_status, kill_and_clean_up, notify_group, clean_up,
  JobGroupManager,
}
use external_toolchain_utils.Prelude.{
  ℕ, ◌≡◌, refl, ap, ◌∙◌, ◌≢◌, ◌⊎◌, inl, inr, true, false, List, [], ◌∷◌, Result, Bool-cases,
  assertion_error, ok, err, nat_eq, contains,
}
use external_toolchain_utils.Automation.StateMachine.{
  BasicStateMachine, GroupStatus, succeeded, failed, group_executing, group_succeeded, group_failed,
  job_status_eq, group_status_eq,
}
use external_toolchain_utils.Automation.Jobs.{all_succeeded, JobManager, clean_up_job, status}
use external_toolchain_utils.Automation.Groups.Statuses.{
  set_group-ne, set_group_status-allowed, set_group_self, FirstLeft, all_finished_lem, all_done,
  some_failed, some_left,
}

-- Cleaning up forgets executers, and no more.
clean_up_job-jobs : (j : ℕ) (m : JobManager) → (clean_up_job j m).jobs ≡ m.jobs
unfolding clean_up_job
clean_up_job-jobs j m = refl

pub kill_and_clean_up-jobs : (js : List ℕ) (m : JobManager) → (kill_and_clean_up js m).jobs ≡ m.jobs
unfolding kill_and_clean_up
kill_and_clean_up-jobs [] m = refl
kill_and_clean_up-jobs (j ∷ js) m =
    kill_and_clean_up-jobs js (clean_up_job j m) ∙ clean_up_job-jobs j m

pub clean_up-jobs : (js : List ℕ) (m : JobManager) → (clean_up js m).jobs ≡ m.jobs
unfolding clean_up
clean_up-jobs [] m = refl
clean_up-jobs (j ∷ js) m = clean_up-jobs js (clean_up_job j m) ∙ clean_up_job-jobs j m

-- The group of the notification has another status, and no other group and no job has changed.
pub record Becomes (g : ℕ) (new_status : GroupStatus) (s s' : JobGroupManager) : Type 0 where
  pub now : group_status s' g ≡ new_status
  pub others : (i : ℕ) → i ≢ g → s'.groups i ≡ s.groups i
  pub jobs : s'.job_manager.jobs ≡ s.job_manager.jobs

-- What the end of a job means for its group.
pub data GroupOutcome (j : ℕ) (s : JobGroupManager) (r : Result JobGroupManager) : Type 0 where
  fails :
      status s.job_manager j ≡ failed
      → (s' : JobGroupManager) → r ≡ ok s'
      → Becomes (s.group_of j) group_failed s s'
      → GroupOutcome j s r
  finishes :
      status s.job_manager j ≡ succeeded
      → all_succeeded s.job_manager.jobs (s.groups (s.group_of j)).jobs ≡ true
      → (s' : JobGroupManager) → r ≡ ok s'
      → Becomes (s.group_of j) group_succeeded s s'
      → GroupOutcome j s r
  goes_on :
      status s.job_manager j ≡ succeeded
      → (first : FirstLeft s.job_manager.jobs (s.groups (s.group_of j)).jobs)
      → (s.job_manager.jobs first.job).state.state ≢ failed
      → r ≡ ok s
      → GroupOutcome j s r
  refuses :
      status s.job_manager j ≡ succeeded
      → (first : FirstLeft s.job_manager.jobs (s.groups (s.group_of j)).jobs)
      → (s.job_manager.jobs first.job).state.state ≡ failed
      → r ≡ err assertion_error
      → GroupOutcome j s r

set_group-Becomes :
    (g : ℕ) (new_status : GroupStatus) (s : JobGroupManager) (state : BasicStateMachine GroupStatus)
    (m : JobManager)
    → state.state ≡ new_status
    → m.jobs ≡ s.job_manager.jobs
    → Becomes g new_status s (record s {
      groups = set_group g (record (s.groups g) { state = state }) s.groups;
      job_manager = m;
    })
set_group-Becomes g new_status s state m now same = record {
  now =
      ap (λ group. group.state.state)
        (set_group_self g (record (s.groups g) { state = state }) s.groups)
      ∙ now;
  others = λ i ne. set_group-ne g (record (s.groups g) { state = state }) s.groups i ne;
  jobs = same;
}

module _ (g : ℕ) (s : JobGroupManager) (executing : group_status s g ≡ group_executing) where
  fail_group_lem : (s' : JobGroupManager) × (fail_group g s ≡ ok s') × Becomes g group_failed s s'
  unfolding fail_group contains
  fail_group_lem =
      let (state, changed, now) = set_group_status-allowed g group_failed s (rw executing refl) in
      let t = record s { groups = set_group g (record (s.groups g) { state = state }) s.groups } in
      elim (Bool-cases (s.groups g).cleanup_on_failure) [
        | inl cleans ↦ (
          record t { job_manager = kill_and_clean_up (s.groups g).jobs s.job_manager },
          rw (changed, cleans),
          set_group-Becomes g group_failed s state
              (kill_and_clean_up (s.groups g).jobs s.job_manager) now
              (kill_and_clean_up-jobs (s.groups g).jobs s.job_manager),
        )
        | inr keeps ↦ (
          t,
          rw (changed, keeps),
          set_group-Becomes g group_failed s state s.job_manager now refl,
        )
      ]

  finish_group_lem :
      (s' : JobGroupManager) × (finish_group g true s ≡ ok s') × Becomes g group_succeeded s s'
  unfolding finish_group contains
  finish_group_lem =
      let (state, changed, now) =
        set_group_status-allowed g group_succeeded s (rw executing refl) in
      let t = record s { groups = set_group g (record (s.groups g) { state = state }) s.groups } in
      elim (Bool-cases (s.groups g).cleanup_on_completion) [
        | inl cleans ↦ (
          record t { job_manager = clean_up (s.groups g).jobs s.job_manager },
          rw (executing, changed, cleans),
          set_group-Becomes g group_succeeded s state (clean_up (s.groups g).jobs s.job_manager) now
              (clean_up-jobs (s.groups g).jobs s.job_manager),
        )
        | inr keeps ↦ (
          t,
          rw (executing, changed, keeps),
          set_group-Becomes g group_succeeded s state s.job_manager now refl,
        )
      ]

-- The loop found a job that has not succeeded.
pub finish_group-false : (g : ℕ) (s : JobGroupManager) → finish_group g false s ≡ ok s
unfolding finish_group
finish_group-false g s = refl

-- A group that executes is notified of a job that has failed, or has succeeded. A failed job fails the
-- group. Else the jobs of the group decide: if all of them have succeeded then so does the group; else
-- the first that has not leaves everything as it was, or is an assertion error if it has failed.
pub notify_group_lem :
    (j : ℕ) (s : JobGroupManager)
    → group_status s (s.group_of j) ≡ group_executing
    → (status s.job_manager j ≡ failed) ⊎ (status s.job_manager j ≡ succeeded)
    → GroupOutcome j s (notify_group j s)
unfolding notify_group
notify_group_lem j s executing (inl lost) =
    let (s', done, becomes) = fail_group_lem (s.group_of j) s executing in
    fails lost s' (rw (executing, lost, done)) becomes
notify_group_lem j s executing (inr won) =
    elim (all_finished_lem s.job_manager.jobs (s.groups (s.group_of j)).jobs) [
      | all_done all e ↦
          let (s', done, becomes) = finish_group_lem (s.group_of j) s executing in
          finishes won all s' (rw (executing, won, e, done)) becomes
      | some_failed first lost e ↦ refuses won first lost (rw (executing, won, e))
      | some_left first kept e ↦
          goes_on won first kept (rw (executing, won, e) (finish_group-false (s.group_of j) s))
    ]
