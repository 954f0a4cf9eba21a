-- ===== src/Automation/StateMachine.antt =====
-- automation/common/state_machine.py, with the machines of job.py and job_group.py and what they use
-- of the history in events.py. The times of the events are left out: a record says whether its event
-- has finished.
pub mod History
mod Tests
use external_toolchain_utils.Prelude.{
  ◌≡◌, ◌↔◌, Bool, true, false, List, [], ◌∷◌, ◌++◌, arith, Result, ◌>>=◌, ◌>>◌, assert,
  if◌then◌else◌, ok, Eq, nat_eq, contains,
}

pub record EventRecord {ℓ} (S : Type ℓ) : Type ℓ where
  pub event : S
  pub has_finished : Bool

-- `state_machine` and `final_states` of a class.
pub record Table {ℓ} (S : Type ℓ) : Type ℓ where
  pub transitions : S → List S
  pub is_final : S → Bool

pub record BasicStateMachine {ℓ} (S : Type ℓ) : Type ℓ where
  pub state : S
  pub timeline : List (EventRecord S)

module _ {ℓ} {S : Type ℓ} where
  -- `self.last.Finish()`, where there is a last record.
  unfoldable pub finish_last : List (EventRecord S) → List (EventRecord S)
  finish_last [] = []
  finish_last (r ∷ []) = record r { has_finished = true } ∷ []
  finish_last (r ∷ r' ∷ rs) = r ∷ finish_last (r' ∷ rs)

  -- EventHistory.AddEvent
  unfoldable pub add_event : S → List (EventRecord S) → List (EventRecord S)
  add_event s records = finish_last records ++ record { event = s; has_finished = false } ∷ []

  -- The constructor, for an initial state of the table.
  unfoldable pub start_machine : S → BasicStateMachine S
  unfolding add_event finish_last
  start_machine s = record { state = s; timeline = add_event s [] }

  unfoldable pub transition_allowed : ⦃e : Eq S⦄ → Table S → BasicStateMachine S → S → Bool
  transition_allowed table m to_state = contains (table.transitions m.state) to_state

  unfoldable pub change :
      ⦃e : Eq S⦄ → Table S → S → BasicStateMachine S → Result (BasicStateMachine S)
  unfolding transition_allowed
  change table new_state m = do
    assert (transition_allowed table m new_state)
    let timeline = add_event new_state m.timeline
    ok (record m {
      state = new_state;
      timeline = if table.is_final new_state then finish_last timeline else timeline;
    })

-- JobStateMachine
pub data JobStatus : Type 0 where
  not_executed setup copying running succeeded failed : JobStatus

abbrev pub job_table : Table JobStatus
job_table = record {
  transitions = elim [
    | not_executed ↦ setup ∷ []
    | setup ↦ copying ∷ failed ∷ []
    | copying ↦ running ∷ failed ∷ []
    | running ↦ succeeded ∷ failed ∷ []
    | _ ↦ []
  ];
  is_final = elim [ succeeded ↦ true | failed ↦ true | _ ↦ false ];
}

-- JobGroupStateMachine
pub data GroupStatus : Type 0 where
  group_not_executed group_executing group_succeeded group_failed : GroupStatus

abbrev pub group_table : Table GroupStatus
group_table = record {
  transitions = elim [
    | group_not_executed ↦ group_executing ∷ []
    | group_executing ↦ group_succeeded ∷ group_failed ∷ []
    | _ ↦ []
  ];
  is_final = elim [ group_succeeded ↦ true | group_failed ↦ true | _ ↦ false ];
}

abbrev pub job_status_eqb : JobStatus → JobStatus → Bool
job_status_eqb not_executed not_executed = true
job_status_eqb setup setup = true
job_status_eqb copying copying = true
job_status_eqb running running = true
job_status_eqb succeeded succeeded = true
job_status_eqb failed failed = true
job_status_eqb _ _ = false

abbrev pub group_status_eqb : GroupStatus → GroupStatus → Bool
group_status_eqb group_not_executed group_not_executed = true
group_status_eqb group_executing group_executing = true
group_status_eqb group_succeeded group_succeeded = true
group_status_eqb group_failed group_failed = true
group_status_eqb _ _ = false

pub job_status_eqb_iff : (a b : JobStatus) → (job_status_eqb a b ≡ true) ↔ (a ≡ b)
job_status_eqb_iff a b = ground arith

pub group_status_eqb_iff : (a b : GroupStatus) → (group_status_eqb a b ≡ true) ↔ (a ≡ b)
group_status_eqb_iff a b = ground arith

instance abbrev pub job_status_eq : Eq JobStatus
job_status_eq = record { beq = job_status_eqb; beq_iff = job_status_eqb_iff }

instance abbrev pub group_status_eq : Eq GroupStatus
group_status_eq = record { beq = group_status_eqb; beq_iff = group_status_eqb_iff }
