-- ===== src/Automation/Groups/Statuses.antt =====
-- The status of a group, and what its jobs say about it.
use external_toolchain_utils.Prelude.Equality.{beq_false}
use external_toolchain_utils.Automation.StateMachine.History.{change-allowed, change-ok}
use external_toolchain_utils.Automation.Groups.{
  group_status, set_group, JobGroupManager, JobGroup, all_finished, set_group_status,
}
use external_toolchain_utils.Prelude.{
  ℕ, ◌≡◌, refl, sym, ap, ◌∙◌, ◌≢◌, inl, inr, Bool, true, false, List, [], ◌∷◌, ◌++◌, Result,
  parts_of_ok, ok_injective, ◌==◌, if◌then◌else◌, ==_iff, Bool-cases, assertion_error, ok, err,
  nat_eq, ◌≟◌, contains, Eq-cases,
}
use external_toolchain_utils.Automation.StateMachine.{
  BasicStateMachine, GroupStatus, group_table, change, succeeded, failed, job_status_eq,
  group_status_eq,
}
use external_toolchain_utils.Automation.Jobs.{all_succeeded, Job}

-- Writing to a group.
pub set_group_self :
    (g : ℕ) (group : JobGroup) (groups : ℕ → JobGroup) → set_group g group groups g ≡ group
set_group_self g group groups = let here : (g == g) ≡ true = (==_iff g g).1 refl in rw here

pub set_group-ne :
    (g : ℕ) (group : JobGroup) (groups : ℕ → JobGroup) (i : ℕ)
    → i ≢ g
    → set_group g group groups i ≡ groups i
set_group-ne g group groups i ne = elim (Bool-cases (i == g)) [
  | inl here ↦ absurd (ne ((==_iff i g).0 here))
  | inr there ↦ rw there
]

-- A change of a group's status that did not raise.
pub set_group_status_lem :
    (g : ℕ) (new_status : GroupStatus) (s s' : JobGroupManager)
    → set_group_status g new_status s ≡ ok s'
    → (state : BasicStateMachine GroupStatus) × (s'
        ≡ record s { groups = set_group g (record (s.groups g) { state = state }) s.groups })
      × (state.state ≡ new_status)
unfolding set_group_status
set_group_status_lem g new_status s s' done =
    let (state, changed, rest) =
      parts_of_ok (change group_table new_status (s.groups g).state)
        (λ state.
          ok (record s { groups = set_group g (record (s.groups g) { state = state }) s.groups }))
        done in
    (
      state,
      ok_injective (sym rest),
      (change-ok group_table (s.groups g).state state new_status changed).0,
    )

-- One that the table allows.
pub set_group_status-allowed :
    (g : ℕ) (new_status : GroupStatus) (s : JobGroupManager)
    → contains (group_table.transitions (group_status s g)) new_status ≡ true
    → (state : BasicStateMachine GroupStatus) × (set_group_status g new_status s
        ≡ ok (record s { groups = set_group g (record (s.groups g) { state = state }) s.groups }))
      × (state.state ≡ new_status)
unfolding set_group_status
set_group_status-allowed g new_status s allowed =
    let (state, changed, now) = change-allowed group_table (s.groups g).state new_status allowed in
    (state, rw changed, now)

-- The first of the jobs that has not succeeded.
pub record FirstLeft (jobs : ℕ → Job) (js : List ℕ) : Type 0 where
  pub before : List ℕ
  pub job : ℕ
  pub after : List ℕ
  pub split : js ≡ before ++ job ∷ after
  pub done : all_succeeded jobs before ≡ true
  pub left : (jobs job).state.state ≢ succeeded

-- The loop over the jobs of a group.
pub data Verdict (jobs : ℕ → Job) (js : List ℕ) (r : Result Bool) : Type 0 where
  all_done : all_succeeded jobs js ≡ true → r ≡ ok true → Verdict jobs js r
  some_failed :
      (first : FirstLeft jobs js)
      → (jobs first.job).state.state ≡ failed
      → r ≡ err assertion_error
      → Verdict jobs js r
  some_left :
      (first : FirstLeft jobs js)
      → (jobs first.job).state.state ≢ failed
      → r ≡ ok false
      → Verdict jobs js r

failed-ne-succeeded : failed ≢ succeeded
failed-ne-succeeded e = cc

pub all_finished_lem : (jobs : ℕ → Job) (js : List ℕ) → Verdict jobs js (all_finished jobs js)
unfolding all_finished all_succeeded
all_finished_lem jobs [] = all_done refl refl
all_finished_lem jobs (j ∷ js) = elim (Eq-cases (jobs j).state.state failed) [
  | inl lost ↦
      some_failed
        (record {
          before = [];
          job = j;
          after = js;
          split = refl;
          done = refl;
          left = λ e. failed-ne-succeeded (sym lost ∙ e);
        })
        lost (rw lost)
  | inr kept ↦ elim (Eq-cases (jobs j).state.state succeeded) [
    | inl won ↦ later won (all_finished_lem jobs js)
    | inr open_ ↦
        some_left
          (record { before = []; job = j; after = js; split = refl; done = refl; left = open_ })
          kept
          (rw (
            beq_false (jobs j).state.state failed kept,
            beq_false (jobs j).state.state succeeded open_,
          ))
  ]
]
  where
    longer : (jobs j).state.state ≡ succeeded → FirstLeft jobs js → FirstLeft jobs (j ∷ js)
    longer won first = record {
      before = j ∷ first.before;
      job = first.job;
      after = first.after;
      split = ap (λ ks. j ∷ ks) first.split;
      done = rw won first.done;
      left = first.left;
    }

    later :
        (jobs j).state.state ≡ succeeded
        → Verdict jobs js (all_finished jobs js)
        → Verdict jobs (j ∷ js) (
            if (jobs j).state.state ≟ failed
            then err assertion_error
            else if (jobs j).state.state ≟ succeeded
            then all_finished jobs js
            else ok false)
    later won (all_done all e) = all_done (rw won all) (rw won e)
    later won (some_failed first lost e) = some_failed (longer won first) lost (rw won e)
    later won (some_left first kept e) = some_left (longer won first) kept (rw won e)
