-- ===== src/Automation/Jobs/Handled/Threads.antt =====
-- Ready jobs while the threads of executers change the states of their jobs.
use external_toolchain_utils.Automation.Jobs.Accounts.Threads.{get_elem?-some-lt}
use external_toolchain_utils.Automation.Jobs.Effects.Threads.{begin_lem, advance_lem}
use external_toolchain_utils.Prelude.{
  ℕ, ◌≡◌, refl, sym, ◌∙◌, ◌≢◌, ◌⊎◌, inl, inr, true, false, some, List, [], ◌∷◌, get_elem?,
  get_elem?-set_self, Bool-cases, true-false, and_parts, ok, nat_eq, ◌≟◌, contains,
}
use external_toolchain_utils.Prelude.Equality.{
  contains-cons, contains-cons_self, contains-cons_of, contains-nil,
}
use external_toolchain_utils.Automation.StateMachine.{JobStatus, job_status_eq, succeeded}
use external_toolchain_utils.Automation.Jobs.{
  next_phase, set_phase, begin, advance, JobManager, Job, all_succeeded, JobExecuter, starting,
  working, finished,
}
use external_toolchain_utils.Automation.Jobs.Effects.{IsReady-Extends}
use external_toolchain_utils.Automation.Jobs.Handled.Queue.{
  Extends-back, Remains-set, IsComplete-Remains, IsComplete, is_queued, is_pending,
}
use mathlib.Core.Path.{subst}

pub begin-IsComplete :
    (i : ℕ) (x : JobExecuter) (s : JobManager)
    → get_elem? s.executers i ≡ some x
    → x.phase ≡ starting
    → IsComplete s
    → IsComplete (begin i x s)
begin-IsComplete i x s at phase h =
    let (next, jobs', same, ext, back) = begin_lem i x s in
    subst IsComplete (sym same) (
      IsComplete-Remains s (set_phase i x next (record s { jobs = jobs' })) ext (λ k e. is_queued e)
        (Remains-set s.executers i x (record x { phase = next }) at refl
          (λ f. absurd (starting-ne-finished (sym phase ∙ f))))
        (λ j there ready. inl (there, IsReady-Extends j (Extends-back ext back) ready)) h)
  where
    starting-ne-finished : starting ≡ finished → ⊥
    starting-ne-finished e = cc

all_succeeded-contains :
    (jobs : ℕ → Job) (ps : List ℕ) (p : ℕ)
    → all_succeeded jobs ps ≡ true
    → contains ps p ≡ true
    → (jobs p).state.state ≡ succeeded
unfolding all_succeeded
all_succeeded-contains jobs [] p all e = absurd (let z = contains-nil p in cc)
all_succeeded-contains jobs (q ∷ ps) p all e =
    let (here, rest) = and_parts ((jobs q).state.state ≟ succeeded) (all_succeeded jobs ps) all in
    elim (contains-cons q ps p e) [
      | inl same ↦ rw same ((job_status_eq.beq_iff (jobs q).state.state succeeded).0 here)
      | inr there ↦ all_succeeded-contains jobs ps p rest there
    ]

-- One job that is none of the predecessors changes.
all_succeeded-other :
    (jobs jobs' : ℕ → Job) (p : ℕ)
    → ((j : ℕ) → j ≢ p → jobs' j ≡ jobs j)
    → (ps : List ℕ) → contains ps p ≡ false
    → all_succeeded jobs' ps ≡ true
    → all_succeeded jobs ps ≡ true
unfolding all_succeeded
all_succeeded-other jobs jobs' p others [] out all = refl
all_succeeded-other jobs jobs' p others (q ∷ ps) out all =
    let (here, rest) = and_parts ((jobs' q).state.state ≟ succeeded) (all_succeeded jobs' ps) all in
    let ne : q ≢ p = λ e. true-false (rw e (contains-cons_self p ps)) out in
    let tail : contains ps p ≡ false = not_there (Bool-cases (contains ps p)) in
    let same : (jobs q).state.state ≟ succeeded ≡ true = rw (others q ne) at here in
    rw (same, all_succeeded-other jobs jobs' p others ps tail rest)
  where
    not_there : (contains ps p ≡ true) ⊎ (contains ps p ≡ false) → contains ps p ≡ false
    not_there (inl e) = absurd (true-false (contains-cons_of q ps p e) out)
    not_there (inr e) = e

pub advance-IsComplete :
    (i : ℕ) (x : JobExecuter) (new_status : JobStatus) (s s' : JobManager)
    → get_elem? s.executers i ≡ some x
    → x.phase ≡ working
    → advance i x new_status s ≡ ok s'
    → IsComplete s
    → IsComplete s'
advance-IsComplete i x new_status s s' at phase done h =
    let (jobs', same, ext, now, others) = advance_lem i x new_status s s' done in
    let t = set_phase i x (next_phase new_status) (record s { jobs = jobs' }) in
    let y = record x { phase = next_phase new_status } in
    subst IsComplete (sym same) (
      IsComplete-Remains s t ext (λ k e. is_queued e)
        (Remains-set s.executers i x y at refl (λ f. absurd (working-ne-finished (sym phase ∙ f))))
        (λ j there ready. elim (Bool-cases (contains (s.jobs j).predecessors x.job)) [
          | inl before ↦
              let all = rw (ext.preds j) at ready in
              let d = all_succeeded-contains jobs' (s.jobs j).predecessors x.job all before in
              inr (
                is_pending i y
                  (get_elem?-set_self s.executers i y (get_elem?-some-lt s.executers i x at))
                  (rw (sym now ∙ d)) d (rw (ext.succs x.job) (h.linked x.job j before)))
          | inr apart ↦ inl (
            there,
            all_succeeded-other s.jobs jobs' x.job others (s.jobs j).predecessors apart
                (rw (ext.preds j) at ready),
          )
        ])
        h)
  where
    working-ne-finished : working ≡ finished → ⊥
    working-ne-finished e = cc
