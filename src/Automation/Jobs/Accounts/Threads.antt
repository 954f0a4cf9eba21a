-- ===== src/Automation/Jobs/Accounts/Threads.antt =====
-- The threads of the executers, and the calls that kill them, keep the accounts of the machines.
use external_toolchain_utils.Prelude.Count.{count_of}
use external_toolchain_utils.Automation.StateMachine.History.{to-ne-not_executed, to_setup}
use external_toolchain_utils.Automation.Jobs.Steps.{
  set_job-ne, set_job_self, set_job-same, set_status_lem,
}
use external_toolchain_utils.Automation.Machines.{uses_at}
use external_toolchain_utils.Automation.Jobs.Accounts.{
  Owns-Keeps, Keeps, Owns-set, held-set, held, Owns, share, IsAccounted,
}
use external_toolchain_utils.Prelude.{
  ℕ, zero, suc, ◌+◌, ◌<◌, ◌≡◌, refl, sym, ap, ◌∙◌, ◌≢◌, inl, inr, some, List, [], ◌∷◌, arith,
  length, get_elem?, Result, parts_of_ok, ok_injective, ok, err, nat_eq, Eq-cases,
}
use mathlib.Core.Path.{subst}
use external_toolchain_utils.Automation.StateMachine.{
  JobStatus, BasicStateMachine, job_status_eq, not_executed, setup, copying, running, succeeded,
  failed,
}
use external_toolchain_utils.Automation.Jobs.{
  next_phase, set_job, advance, set_phase, Job, JobManager, Phase, after_setup, begin, JobExecuter,
  starting, working, finished, notified, crashed, status, set_status,
}

pub get_elem?-some-lt {ℓ} :
    {A : Type ℓ} (xs : List A) (i : ℕ) (a : A) → get_elem? xs i ≡ some a → i < length xs
get_elem?-some-lt [] i a e = absurd (cc)
get_elem?-some-lt (x ∷ xs) zero a e = omega arith
get_elem?-some-lt (x ∷ xs) (suc i) a e = let h = get_elem?-some-lt xs i a e in omega arith

-- A job that is not executed is written to.
Owns-write :
    (phase : Phase) (jobs jobs' : ℕ → Job) (j j₀ : ℕ) (machines : List ℕ)
    → (jobs j₀).state.state ≡ not_executed
    → ((i : ℕ) → i ≢ j₀ → jobs' i ≡ jobs i)
    → Owns phase jobs j machines
    → Owns phase jobs' j machines
Owns-write starting jobs jobs' j j₀ machines first others owns = tt
Owns-write notified jobs jobs' j j₀ machines first others owns = tt
Owns-write crashed jobs jobs' j j₀ machines first others owns = tt
Owns-write working jobs jobs' j j₀ machines first others (has, ne) =
    let same : jobs' j ≡ jobs j = others j (λ e. ne (ap (λ i. (jobs i).state.state) e ∙ first)) in
    rw same (has, ne)
Owns-write finished jobs jobs' j j₀ machines first others (has, ne) =
    let same : jobs' j ≡ jobs j = others j (λ e. ne (ap (λ i. (jobs i).state.state) e ∙ first)) in
    rw same (has, ne)

-- The jobs after the first two statements of a thread.
abbrev setup_jobs : (ℕ → Job) → JobExecuter → BasicStateMachine JobStatus → ℕ → Job
setup_jobs jobs x state =
    let jobs' = set_job x.job (record (jobs x.job) { state = state }) jobs in
    set_job x.job (record (jobs' x.job) { machines = x.machines }) jobs'

setup_jobs-ne :
    (jobs : ℕ → Job) (x : JobExecuter) (state : BasicStateMachine JobStatus) (m : ℕ)
    → m ≢ x.job
    → setup_jobs jobs x state m ≡ jobs m
setup_jobs-ne jobs x state m ne =
    let jobs' = set_job x.job (record (jobs x.job) { state = state }) jobs in
    set_job-ne x.job (record (jobs' x.job) { machines = x.machines }) jobs' m ne
    ∙ set_job-ne x.job (record (jobs x.job) { state = state }) jobs m ne

setup_jobs-Owns :
    (jobs : ℕ → Job) (x : JobExecuter) (state : BasicStateMachine JobStatus)
    → state.state ≡ setup
    → Owns working (setup_jobs jobs x state) x.job x.machines
setup_jobs-Owns jobs x state now =
    let jobs' = set_job x.job (record (jobs x.job) { state = state }) jobs in
    let inner : jobs' x.job ≡ record (jobs x.job) { state = state } =
      set_job_self x.job (record (jobs x.job) { state = state }) jobs in
    let outer = set_job_self x.job (record (jobs' x.job) { machines = x.machines }) jobs' in
    (
      ap (λ b. b.machines) outer,
      λ e.
          absurd
            (let p = ap (λ b. b.state.state) outer in let q = ap (λ b. b.state.state) inner in cc),
    )

-- A change of state of one job, to a state that is not the first.
state-Keeps :
    (jobs : ℕ → Job) (j₀ : ℕ) (state : BasicStateMachine JobStatus) (j : ℕ)
    → state.state ≢ not_executed
    → Keeps jobs (set_job j₀ (record (jobs j₀) { state = state }) jobs) j
state-Keeps jobs j₀ state j ne = (
  set_job-same (λ b. b.machines) j₀ (record (jobs j₀) { state = state }) jobs j refl,
  λ on. elim (Eq-cases j j₀) [
    | inl same ↦ rw (same, set_job_self j₀ (record (jobs j₀) { state = state }) jobs) ne
    | inr other ↦ rw (set_job-ne j₀ (record (jobs j₀) { state = state }) jobs j other) on
  ],
)

next_share :
    (k : ℕ) (new_status : JobStatus) (machines : List ℕ)
    → share k (next_phase new_status) machines ≡ count_of k machines
next_share k not_executed machines = refl
next_share k setup machines = refl
next_share k copying machines = refl
next_share k running machines = refl
next_share k succeeded machines = refl
next_share k failed machines = refl

next_Owns :
    (new_status : JobStatus) (jobs : ℕ → Job) (j : ℕ) (machines : List ℕ)
    → Owns working jobs j machines
    → Owns (next_phase new_status) jobs j machines
next_Owns not_executed jobs j machines h = h
next_Owns setup jobs j machines h = h
next_Owns copying jobs j machines h = h
next_Owns running jobs j machines h = h
next_Owns succeeded jobs j machines h = h
next_Owns failed jobs j machines h = h

module _ (base : ℕ → ℕ) where
  -- An executer that comes into another phase with its machines.
  pub set_phase-IsAccounted :
      (i : ℕ) (x : JobExecuter) (phase : Phase) (s : JobManager) (jobs : ℕ → Job)
      → get_elem? s.executers i ≡ some x
      → ((k : ℕ) → share k phase x.machines ≡ share k x.phase x.machines)
      → ((n : ℕ) (y : JobExecuter)
          → get_elem? s.executers n ≡ some y
          → Owns y.phase jobs y.job y.machines)
      → Owns phase jobs x.job x.machines
      → ((k : ℕ) → uses_at s.pool k ≡ base k + held k s.executers)
      → IsAccounted base (set_phase i x phase (record s { jobs = jobs }))
  set_phase-IsAccounted i x phase s jobs at same others here uses = record {
    uses = λ k.
        let u = uses k in
        let e = same k in
        let h = held-set k s.executers i x (record x { phase = phase }) at in omega arith;
    owns =
        Owns-set (record s { jobs = jobs }) (set_phase i x phase (record s { jobs = jobs })) i
          (record x { phase = phase }) refl (get_elem?-some-lt s.executers i x at) others here;
  }

  pub begin-IsAccounted :
      (i : ℕ) (x : JobExecuter) (s : JobManager)
      → get_elem? s.executers i ≡ some x
      → x.phase ≡ starting
      → IsAccounted base s
      → IsAccounted base (begin i x s)
  unfolding begin after_setup
  begin-IsAccounted i x s at phase h = go (set_status x.job setup s) refl
    where
      go :
          (r : Result JobManager)
          → set_status x.job setup s ≡ r
          → IsAccounted base (after_setup i x s r)
      go (err y) e = set_phase-IsAccounted i x crashed s s.jobs at (λ k. rw phase) h.owns tt h.uses
      go (ok t) e =
          let (state, same, now, allowed) = set_status_lem x.job setup s t e in
          let first = to_setup (status s x.job) allowed in
          subst (λ u. IsAccounted base (after_setup i x s (ok u))) (sym same)
            (set_phase-IsAccounted i x working s (setup_jobs s.jobs x state) at (λ k. rw phase)
              (λ n y p.
                Owns-write y.phase s.jobs (setup_jobs s.jobs x state) y.job x.job y.machines first
                  (λ m ne. setup_jobs-ne s.jobs x state m ne) (h.owns n y p))
              (setup_jobs-Owns s.jobs x state now) h.uses)

  pub advance-IsAccounted :
      (i : ℕ) (x : JobExecuter) (new_status : JobStatus) (s s' : JobManager)
      → get_elem? s.executers i ≡ some x
      → x.phase ≡ working
      → IsAccounted base s
      → advance i x new_status s ≡ ok s'
      → IsAccounted base s'
  unfolding advance
  advance-IsAccounted i x new_status s s' at phase h done =
      let (t, set_done, rest) =
        parts_of_ok (set_status x.job new_status s)
          (λ t. ok (set_phase i x (next_phase new_status) t)) done in
      let (state, same, now, allowed) = set_status_lem x.job new_status s t set_done in
      let jobs' = set_job x.job (record (s.jobs x.job) { state = state }) s.jobs in
      let keeps : (j : ℕ) → Keeps s.jobs jobs' j = λ j.
        state-Keeps s.jobs x.job state j
          (λ e. to-ne-not_executed (status s x.job) new_status allowed (sym now ∙ e)) in
      subst (IsAccounted base)
        (ap (set_phase i x (next_phase new_status)) (sym same) ∙ ok_injective rest)
        (set_phase-IsAccounted i x (next_phase new_status) s jobs' at
          (λ k. rw phase (next_share k new_status x.machines))
          (λ n y p. Owns-Keeps y.phase s.jobs jobs' y.job y.machines (keeps y.job) (h.owns n y p))
          (next_Owns new_status jobs' x.job x.machines (
            Owns-Keeps working s.jobs jobs' x.job x.machines (keeps x.job)
              (subst (λ p. Owns p s.jobs x.job x.machines) phase (h.owns i x at))))
          h.uses)
