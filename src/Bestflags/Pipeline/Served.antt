-- ===== src/Bestflags/Pipeline/Served.antt =====
-- The duplicates that wait for a result in a stage of the pipeline (bestflags/pipeline_worker.py).
pub mod Hand
use external_toolchain_utils.Prelude.Dict.{lookup, insert, lookup-insert_self, lookup-insert_ne}
use external_toolchain_utils.Prelude.Equality.{
  contains-cons, contains-cons_self, contains-cons_of, contains-nil,
}
use mathlib.Core.Path.{subst}
use external_toolchain_utils.Bestflags.Pipeline.{
  take_completed, outcome, place_duplicate, PipelineStep, PipelineSteps, unresolved,
  PipelineProcess, dispatch_step, work_step, duplicate_step, completed_step, no_pipeline_steps,
  one_more_step,
}
use external_toolchain_utils.Bestflags.Pipeline.Served.Hand.{
  place_duplicate-IsServed, perform-IsServed, InHand-same, ids_of, dispatch-IsServed, IsServed,
  is_done, is_completed, is_working, is_failed, InHand,
}
use external_toolchain_utils.Prelude.{
  ℕ, ◌≡◌, refl, sym, ap, ◌∙◌, ◌≢◌, inl, inr, Bool, true, false, Option, none, some, List, [], ◌∷◌,
  ◌==◌, if◌then◌else◌, ==_iff, true-false, nat_eq, contains, Eq-cases,
}

module _ (identifier : ℕ → ℕ) (work : ℕ → Option ℕ) (done : ℕ → Bool) (all : List ℕ) where
  unresolved-contains :
      (id : ℕ) (ts : List ℕ) (t : ℕ)
      → contains (unresolved identifier id ts) t ≡ true
      → (contains ts t ≡ true) × (id ≢ identifier t)
  unfolding unresolved
  unresolved-contains id [] t h = absurd (true-false h (contains-nil t))
  unresolved-contains id (u ∷ ts) t h = go (identifier u == id) refl (unresolved-contains id ts t) h
    where
      go :
          (same : Bool)
          → (identifier u == id) ≡ same
          → (contains (unresolved identifier id ts) t ≡ true
              → (contains ts t ≡ true) × (id ≢ identifier t))
          → contains
              (if same then unresolved identifier id ts else u ∷ unresolved identifier id ts)
              t
            ≡ true
          → (contains (u ∷ ts) t ≡ true) × (id ≢ identifier t)
      go true e again k = let (a, b) = again k in (contains-cons_of u ts t a, b)
      go false e again k = elim (contains-cons u (unresolved identifier id ts) t k) [
        | inl here ↦ (
          rw here (contains-cons_self u ts),
          λ p. true-false ((==_iff (identifier u) id).1 (ap identifier (sym here) ∙ sym p)) e,
        )
        | inr there ↦ let (a, b) = again there in (contains-cons_of u ts t a, b)
      ]

  take_completed-IsServed :
      (id result : ℕ) (rest : List (ℕ × ℕ)) (s : PipelineProcess)
      → s.completed_queue ≡ (id, result) ∷ rest
      → IsServed identifier work done all s
      → IsServed identifier work done all
          (take_completed identifier work done id result (record s { completed_queue = rest }))
  take_completed-IsServed id result rest s e h = record {
    known = λ j k. move j (h.known j k);
    queued = h.queued;
    pooled = h.pooled;
    helped = h.helped;
    waits = λ t k.
        let (there, ne) = unresolved-contains id s.waiting_list t k in
        let (known, none_yet) = h.waits t there in
        (known, lookup-insert_ne id (identifier t) result s.done_dict ne ∙ none_yet);
  }
    where
      now :
          (j : ℕ)
          → j ≡ id
          → InHand identifier work done all j
              (take_completed identifier work done id result (record s { completed_queue = rest }))
      now j same = is_done result (
          subst (λ i. lookup i (insert id result s.done_dict) ≡ some result) (sym same)
            (lookup-insert_self id result s.done_dict))

      move :
          (j : ℕ)
          → InHand identifier work done all j s
          → InHand identifier work done all j
              (take_completed identifier work done id result (record s { completed_queue = rest }))
      move j (is_done r k) = elim (Eq-cases id j) [
        | inl same ↦ now j (sym same)
        | inr other ↦ is_done r (lookup-insert_ne id j result s.done_dict other ∙ k)
      ]
      move j (is_completed k) =
          elim (contains-cons id (ids_of rest) j (subst (λ q. contains (ids_of q) j ≡ true) e k)) [
            | inl same ↦ now j same
            | inr later ↦ is_completed later
          ]
      move j (is_working t k same) = is_working t k same
      move j (is_failed t k same fails) = is_failed t k same fails

  PipelineStep-IsServed :
      (s s' : PipelineProcess)
      → PipelineStep identifier work done s s'
      → IsServed identifier work done all s
      → IsServed identifier work done all s'
  PipelineStep-IsServed s s' (dispatch_step t rest e same) h =
      subst (IsServed identifier work done all) (sym same) (
        dispatch-IsServed identifier work done all t (record s { task_queue = rest })
          (h.queued t (rw e (contains-cons_self t rest)))
          (record {
            known = λ id k.
                InHand-same identifier work done all id s (record s { task_queue = rest }) refl refl
                  (λ u c. c) (h.known id k);
            queued = λ u k. h.queued u (rw e (contains-cons_of t rest u k));
            pooled = h.pooled;
            helped = h.helped;
            waits = h.waits;
          }))
  PipelineStep-IsServed s s' (work_step t before after e same) h =
      subst (IsServed identifier work done all) (sym same)
        (perform-IsServed identifier work done all t before after s e h)
  PipelineStep-IsServed s s' (duplicate_step t rest runs e same) h =
      subst (IsServed identifier work done all) (sym same) (go (done t))
    where
      taken : IsServed identifier work done all (record s { helper_queue = rest })
      taken = record {
        known = λ id k.
            InHand-same identifier work done all id s (record s { helper_queue = rest }) refl refl
              (λ u c. c) (h.known id k);
        queued = h.queued;
        pooled = h.pooled;
        helped = λ u k. h.helped u (rw e (contains-cons_of t rest u k));
        waits = h.waits;
      }

      go :
          (finished : Bool)
          → IsServed identifier work done all (
              if finished
              then record s { helper_queue = rest; helper_ended = true }
              else place_duplicate identifier work done t
                  (lookup (identifier t) s.done_dict)
                  (record s { helper_queue = rest }))
      go true = record {
        known = λ id k.
            InHand-same identifier work done all id s
              (record s { helper_queue = rest; helper_ended = true }) refl refl (λ u c. c)
              (h.known id k);
        queued = h.queued;
        pooled = h.pooled;
        helped = taken.helped;
        waits = h.waits;
      }
      go false =
          place_duplicate-IsServed identifier work done all t (lookup (identifier t) s.done_dict)
            (record s { helper_queue = rest }) refl (h.helped t (rw e (contains-cons_self t rest)))
            taken
  PipelineStep-IsServed s s' (completed_step id result rest runs e same) h =
      subst (IsServed identifier work done all) (sym same)
        (take_completed-IsServed id result rest s e h)

  PipelineSteps-IsServed :
      (s s' : PipelineProcess)
      → PipelineSteps identifier work done s s'
      → IsServed identifier work done all s
      → IsServed identifier work done all s'
  PipelineSteps-IsServed s s' no_pipeline_steps h = h
  PipelineSteps-IsServed s s' (one_more_step {t} before last) h =
      PipelineStep-IsServed t s' last (PipelineSteps-IsServed s t before h)

  -- A task of the stage with the identifier of `t`, for which a worker has no result.
  abbrev pub HasFailed : ℕ → Type 0
  HasFailed t =
      (u : ℕ) × (contains all u ≡ true)
      × (identifier u ≡ identifier t)
      × (outcome identifier work done u ≡ none)

  -- However the process, the workers and the helper interleave, from a stage whose tasks are `all` and
  -- whose cache has identifiers with a result each or a task that fails: when the pool has no task left
  -- and the completed queue is empty, a duplicate waits only if the stage has a task with the same
  -- identifier on which its worker raises, in Work or in the assertion before it.
  pub waiting_list-HasFailed :
      (s s' : PipelineProcess)
      → IsServed identifier work done all s
      → PipelineSteps identifier work done s s'
      → s'.working ≡ []
      → s'.completed_queue ≡ []
      → (t : ℕ) → contains s'.waiting_list t ≡ true
      → HasFailed t
  waiting_list-HasFailed s s' h steps idle taken t waits =
      let (known, none_yet) = after.waits t waits in
      found (after.known (identifier t) known) none_yet
    where
      after : IsServed identifier work done all s'
      after = PipelineSteps-IsServed s s' steps h

      found :
          InHand identifier work done all (identifier t) s'
          → lookup (identifier t) s'.done_dict ≡ none
          → HasFailed t
      found (is_done r k) e = absurd (let p : some r ≡ none = sym k ∙ e in cc)
      found (is_completed k) e = absurd (
          true-false (subst (λ q. contains (ids_of q) (identifier t) ≡ true) taken k)
            (contains-nil (identifier t)))
      found (is_working u k same) e = absurd (true-false (rw idle at k) (contains-nil u))
      found (is_failed u k same fails) e = (u, k, same, fails)
