-- ===== src/Automation/StateMachine/History.antt =====
-- The history of a state machine of automation/common/state_machine.py over its changes.
use external_toolchain_utils.Automation.StateMachine.{
  job_status_eq, not_executed, setup, copying, running, succeeded, failed,
}
use external_toolchain_utils.Automation.StateMachine.{
  finish_last, BasicStateMachine, EventRecord, change, job_table, add_event, Table, JobStatus,
}
use external_toolchain_utils.Prelude.{
  ℕ, ◌<◌, ◌≡◌, refl, ◌≢◌, ◌⊎◌, inl, inr, Bool, true, false, List, [], ◌∷◌, ◌++◌, arith, Result,
  if◌then◌else◌, Bool-cases, assertion_error, ok, err, Eq, nat_eq, contains,
}

module _ {S : Type 0} ⦃e : Eq S⦄ (table : Table S) where
  -- Each event follows from the one before it by an allowed transition, and all but the last have
  -- finished. The last is the given state, and has finished as told.
  abbrev pub IsHistory : List (EventRecord S) → S → Bool → Type 0
  IsHistory [] s done = ⊥
  IsHistory (r ∷ []) s done = (r.event ≡ s) × (r.has_finished ≡ done)
  IsHistory (r ∷ r' ∷ rs) s done =
      (contains (table.transitions r.event) r'.event ≡ true)
      × (r.has_finished ≡ true)
      × IsHistory (r' ∷ rs) s done

  finish_last-IsHistory :
      (rs : List (EventRecord S)) (s : S) (done : Bool)
      → IsHistory rs s done
      → IsHistory (finish_last rs) s true
  unfolding finish_last
  finish_last-IsHistory [] s done h = absurd h
  finish_last-IsHistory (r ∷ []) s done h = (h.0, refl)
  finish_last-IsHistory (r ∷ r' ∷ []) s done h = (h.0, h.1, (h.2.0, refl))
  finish_last-IsHistory (r ∷ r' ∷ r'' ∷ rs) s done h =
      (h.0, h.1, finish_last-IsHistory (r' ∷ r'' ∷ rs) s done h.2)

  append-IsHistory :
      (rs : List (EventRecord S)) (s s' : S)
      → contains (table.transitions s) s' ≡ true
      → IsHistory rs s true
      → IsHistory (rs ++ record { event = s'; has_finished = false } ∷ []) s' false
  append-IsHistory [] s s' allowed h = absurd h
  append-IsHistory (r ∷ []) s s' allowed h = (rw h.0 allowed, h.1, (refl, refl))
  append-IsHistory (r ∷ r' ∷ rs) s s' allowed h =
      (h.0, h.1, append-IsHistory (r' ∷ rs) s s' allowed h.2)

  add_event-IsHistory :
      (rs : List (EventRecord S)) (s s' : S) (done : Bool)
      → contains (table.transitions s) s' ≡ true
      → IsHistory rs s done
      → IsHistory (add_event s' rs) s' false
  unfolding add_event
  add_event-IsHistory rs s s' done allowed h =
      append-IsHistory (finish_last rs) s s' allowed (finish_last-IsHistory rs s done h)

  -- The history of a machine is a chain of allowed transitions that ends in its state.
  abbrev pub IsConsistent : BasicStateMachine S → Type 0
  IsConsistent m = (done : Bool) × IsHistory m.timeline m.state done

  abbrev pub Answer : BasicStateMachine S → S → Result (BasicStateMachine S) → Type 0
  Answer m s (ok m') =
      (contains (table.transitions m.state) s ≡ true)
      × (m'.state ≡ s)
      × IsHistory m'.timeline s (table.is_final s)
  Answer m s (err x) = (contains (table.transitions m.state) s ≡ false) × (x ≡ assertion_error)

  -- A change succeeds just if the table allows the transition, and is an assertion error if not. It
  -- then leads to the new state, and the history stays a chain of allowed transitions, all of whose
  -- events have finished but the last, which has finished just if it is final.
  pub change_lem :
      (m : BasicStateMachine S) (s : S) → IsConsistent m → Answer m s (change table s m)
  unfolding change
  change_lem m s (done, h) = elim (Bool-cases (contains (table.transitions m.state) s)) [
    | inl allowed ↦ rw allowed (
      allowed,
      refl,
      ended (table.is_final s) (add_event-IsHistory m.timeline m.state s done allowed h),
    )
    | inr refused ↦ rw refused (refused, refl)
  ]
    where
      ended :
          (final : Bool)
          → IsHistory (add_event s m.timeline) s false
          → IsHistory
              (if final then finish_last (add_event s m.timeline) else add_event s m.timeline)
              s
              final
      ended true h = finish_last-IsHistory (add_event s m.timeline) s false h
      ended false h = h

  -- A change that did not raise.
  pub change-ok :
      (m m' : BasicStateMachine S) (s : S)
      → change table s m ≡ ok m'
      → (m'.state ≡ s) × (contains (table.transitions m.state) s ≡ true)
  unfolding change
  change-ok m m' s done = elim (Bool-cases (contains (table.transitions m.state) s)) [
    | inl allowed ↦ (new_state (rw allowed at done), allowed)
    | inr refused ↦ absurd (let q : err assertion_error ≡ ok m' = rw refused at done in cc)
  ]
    where
      new_state :
          {timeline : List (EventRecord S)}
          → ok (record m { state = s; timeline = timeline }) ≡ ok m'
          → m'.state ≡ s
      new_state p = cc

  -- A change that the table allows.
  pub change-allowed :
      (m : BasicStateMachine S) (s : S)
      → contains (table.transitions m.state) s ≡ true
      → (m' : BasicStateMachine S) × (change table s m ≡ ok m') × (m'.state ≡ s)
  unfolding change
  change-allowed m s allowed = (
    record m {
      state = s;
      timeline =
          if table.is_final s then finish_last (add_event s m.timeline) else add_event s m.timeline;
    },
    rw allowed,
    refl,
  )

-- The states that a job can be in after another.
pub data Follows : JobStatus → JobStatus → Type 0 where
  same : {s : JobStatus} → Follows s s
  step :
      {s t u : JobStatus} → Follows s t → contains (job_table.transitions t) u ≡ true → Follows s u

pub rank : JobStatus → ℕ
rank not_executed = 0
rank setup = 1
rank copying = 2
rank running = 3
rank succeeded = 4
rank failed = 4

rank-lt : (s t : JobStatus) → contains (job_table.transitions s) t ≡ true → rank s < rank t
unfolding contains rank
rank-lt s t h = ground arith

-- A state of a job from which allowed transitions lead to another is that state itself or has a
-- smaller rank, so that a job never comes back to a state that it has left.
pub Follows-rank : (s t : JobStatus) → Follows s t → (s ≡ t) ⊎ (rank s < rank t)
Follows-rank s t same = inl refl
Follows-rank s t (step {t = x} f h) = elim (Follows-rank s x f) [
  | inl e ↦ inr (rw e (rank-lt x t h))
  | inr l ↦ inr (let l' = rank-lt x t h in omega arith)
]

-- Where the transitions of a job lead.
pub to_setup : (s : JobStatus) → contains (job_table.transitions s) setup ≡ true → s ≡ not_executed
unfolding contains
to_setup s h = ground arith

pub to-ne-not_executed :
    (s t : JobStatus) → contains (job_table.transitions s) t ≡ true → t ≢ not_executed
unfolding contains
to-ne-not_executed s t h = ground arith

pub from_succeeded : (t : JobStatus) → contains (job_table.transitions succeeded) t ≡ true → ⊥
unfolding contains
from_succeeded t h = ground arith
