-- ===== src/Automation/Jobs/Effects/Threads.antt =====
-- What the threads of the executers do to the states of the jobs.
use external_toolchain_utils.Automation.StateMachine.History.{from_succeeded}
use external_toolchain_utils.Automation.Jobs.Effects.{
  set_job-Extends, Extends-trans, Extends-refl, Extends,
}
use external_toolchain_utils.Prelude.{
  ℕ, ◌≡◌, refl, sym, ap, ◌∙◌, ◌≢◌, inl, inr, true, Result, parts_of_ok, ok_injective, ok, err,
  nat_eq, contains, Eq-cases,
}
use external_toolchain_utils.Automation.StateMachine.{
  job_table, JobStatus, BasicStateMachine, setup, succeeded, job_status_eq,
}
use external_toolchain_utils.Automation.Jobs.{
  set_job, next_phase, set_phase, Phase, JobManager, after_setup, JobExecuter, advance, Job, begin,
  working, crashed, set_status,
}
use external_toolchain_utils.Automation.Jobs.Steps.{set_job-ne, set_job_self, set_status_lem}

setup-ne-succeeded : setup ≡ succeeded → ⊥
setup-ne-succeeded e = cc

-- A change of state that is allowed is none of a job that has succeeded.
state-Extends :
    (jobs : ℕ → Job) (j : ℕ) (state : BasicStateMachine JobStatus) (new_status : JobStatus)
    → contains (job_table.transitions (jobs j).state.state) new_status ≡ true
    → Extends jobs (set_job j (record (jobs j) { state = state }) jobs)
state-Extends jobs j state new_status allowed =
    set_job-Extends j (record (jobs j) { state = state }) jobs refl refl
      (λ done. absurd (from_succeeded new_status (rw done at allowed)))

-- The two first statements of a thread, whether they raise or not.
pub begin_lem :
    (i : ℕ) (x : JobExecuter) (s : JobManager)
    → (phase : Phase) × (jobs' : ℕ → Job) × (begin i x s
        ≡ set_phase i x phase (record s { jobs = jobs' }))
      × Extends s.jobs jobs'
      × ((j : ℕ) → (jobs' j).state.state ≡ succeeded → (s.jobs j).state.state ≡ succeeded)
unfolding begin after_setup
begin_lem i x s = go (set_status x.job setup s) refl
  where
    go :
        (r : Result JobManager)
        → set_status x.job setup s ≡ r
        → (phase : Phase) × (jobs' : ℕ → Job) × (after_setup i x s r
            ≡ set_phase i x phase (record s { jobs = jobs' }))
          × Extends s.jobs jobs'
          × ((j : ℕ) → (jobs' j).state.state ≡ succeeded → (s.jobs j).state.state ≡ succeeded)
    go (err y) e = (crashed, s.jobs, refl, Extends-refl s.jobs, λ j h. h)
    go (ok t) e =
        let (state, same, now, allowed) = set_status_lem x.job setup s t e in
        let jobs' = set_job x.job (record (s.jobs x.job) { state = state }) s.jobs in
        let job = record (jobs' x.job) { machines = x.machines } in
        (
          working,
          set_job x.job job jobs',
          ap (λ u. after_setup i x s (ok u)) same,
          Extends-trans (state-Extends s.jobs x.job state setup allowed)
              (set_job-Extends x.job job jobs' refl refl (λ h. h)),
          λ j h. elim (Eq-cases j x.job) [
            | inl here ↦ absurd (
                let p = set_job_self x.job job jobs' in
                let q = set_job_self x.job (record (s.jobs x.job) { state = state }) s.jobs in
                let r : (set_job x.job job jobs' x.job).state.state ≡ succeeded = rw here at h in
                let a = ap (λ b. b.state.state) p in
                let b = ap (λ b. b.state.state) q in
                setup-ne-succeeded (sym now ∙ sym b ∙ sym a ∙ r))
            | inr there ↦
                let p = set_job-ne x.job job jobs' j there in
                let q = set_job-ne x.job (record (s.jobs x.job) { state = state }) s.jobs j there in
                ap (λ b. b.state.state) (sym q) ∙ ap (λ b. b.state.state) (sym p) ∙ h
          ],
        )

-- A later change of state.
pub advance_lem :
    (i : ℕ) (x : JobExecuter) (new_status : JobStatus) (s s' : JobManager)
    → advance i x new_status s ≡ ok s'
    → (jobs' : ℕ → Job) × (s' ≡ set_phase i x (next_phase new_status) (record s { jobs = jobs' }))
      × Extends s.jobs jobs'
      × ((jobs' x.job).state.state ≡ new_status)
      × ((j : ℕ) → j ≢ x.job → jobs' j ≡ s.jobs j)
unfolding advance
advance_lem i x new_status s s' done =
    let (t, set_done, rest) =
      parts_of_ok (set_status x.job new_status s)
        (λ t. ok (set_phase i x (next_phase new_status) t)) done in
    let (state, same, now, allowed) = set_status_lem x.job new_status s t set_done in
    let job = record (s.jobs x.job) { state = state } in
    (
      set_job x.job job s.jobs,
      ok_injective (sym rest) ∙ ap (set_phase i x (next_phase new_status)) same,
      state-Extends s.jobs x.job state new_status allowed,
      ap (λ b. b.state.state) (set_job_self x.job job s.jobs) ∙ now,
      λ j ne. set_job-ne x.job job s.jobs j ne,
    )
