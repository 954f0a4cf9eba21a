-- ===== src/Bestflags/Pipeline/Sound.antt =====
-- The results that a stage of the pipeline hands on.
use external_toolchain_utils.Prelude.Dict.{lookup, insert, lookup-insert_self, lookup-insert_ne}
use mathlib.Core.Path.{subst}
use mathlib.Core.Option.{some-injective}
use external_toolchain_utils.Bestflags.Pipeline.{
  outcome, finish_work, PipelineStep, PipelineSteps, take_completed, resolved, PipelineProcess,
  dispatch, place_duplicate, dispatch_step, work_step, duplicate_step, completed_step,
  no_pipeline_steps, one_more_step,
}
use external_toolchain_utils.Prelude.{
  ℕ, ◌≡◌, refl, sym, ◌∙◌, inl, inr, Bool, true, false, Option, none, some, List, [], ◌∷◌, ◌++◌,
  ◌==◌, if◌then◌else◌, ==_iff, if-both, nat_eq, contains, Eq-cases,
}

module _ (identifier : ℕ → ℕ) (work : ℕ → Option ℕ) (done : ℕ → Bool) where
  -- A result that comes from the work on a task with the given identifier.
  abbrev pub Earned : (id result : ℕ) → Type 0
  Earned id result = (t : ℕ) × (identifier t ≡ id) × (work t ≡ some result)

  abbrev pub AllEarned : List (ℕ × ℕ) → Type 0
  AllEarned [] = Unit
  AllEarned ((t, result) ∷ rest) = Earned (identifier t) result × AllEarned rest

  abbrev pub AllCompleted : List (ℕ × ℕ) → Type 0
  AllCompleted [] = Unit
  AllCompleted ((id, result) ∷ rest) = Earned id result × AllCompleted rest

  -- Every result in the queues and in the dictionary is earned.
  pub record IsSound (s : PipelineProcess) : Type 0 where
    pub results : AllEarned s.result_queue
    pub completed : AllCompleted s.completed_queue
    pub dones : (id result : ℕ) → lookup id s.done_dict ≡ some result → Earned id result

  append-AllEarned :
      (rs : List (ℕ × ℕ)) (ps : List (ℕ × ℕ)) → AllEarned rs → AllEarned ps → AllEarned (rs ++ ps)
  append-AllEarned [] ps h k = k
  append-AllEarned ((t, r) ∷ rs) ps (first, rest) k = (first, append-AllEarned rs ps rest k)

  append-AllCompleted :
      (rs : List (ℕ × ℕ)) (id result : ℕ)
      → AllCompleted rs
      → Earned id result
      → AllCompleted (rs ++ (id, result) ∷ [])
  append-AllCompleted [] id result h k = (k, tt)
  append-AllCompleted ((t, r) ∷ rs) id result (first, rest) k =
      (first, append-AllCompleted rs id result rest k)

  resolved-AllEarned :
      (id result : ℕ) (ts : List ℕ)
      → Earned id result
      → AllEarned (resolved identifier id result ts)
  unfolding resolved
  resolved-AllEarned id result [] h = tt
  resolved-AllEarned id result (t ∷ ts) h =
      go (identifier t == id) refl (resolved-AllEarned id result ts h)
    where
      go :
          (same : Bool)
          → (identifier t == id) ≡ same
          → AllEarned (resolved identifier id result ts)
          → AllEarned (
              if same
              then (t, result) ∷ resolved identifier id result ts
              else resolved identifier id result ts)
      go true e rest = (rw ((==_iff (identifier t) id).0 e) h, rest)
      go false e rest = rest

  dispatch-IsSound :
      (t : ℕ) (s : PipelineProcess) → IsSound s → IsSound (dispatch identifier work done t s)
  unfolding dispatch
  dispatch-IsSound t s h =
      if-both IsSound (contains s.mycache (identifier t))
        (record { results = h.results; completed = h.completed; dones = h.dones })
        (record { results = h.results; completed = h.completed; dones = h.dones })

  place_duplicate-IsSound :
      (t : ℕ) (o : Option ℕ) (s : PipelineProcess)
      → lookup (identifier t) s.done_dict ≡ o
      → IsSound s
      → IsSound (place_duplicate identifier work done t o s)
  unfolding place_duplicate
  place_duplicate-IsSound t (some result) s e h = record {
    results =
        append-AllEarned s.result_queue ((t, result) ∷ []) h.results
          (h.dones (identifier t) result e, tt);
    completed = h.completed;
    dones = h.dones;
  }
  place_duplicate-IsSound t none s e h = record {
    results = h.results;
    completed = h.completed;
    dones = h.dones;
  }

  take_completed-IsSound :
      (id result : ℕ) (s : PipelineProcess)
      → Earned id result
      → IsSound s
      → IsSound (take_completed identifier work done id result s)
  take_completed-IsSound id result s earned h = record {
    results =
        append-AllEarned s.result_queue (resolved identifier id result s.waiting_list) h.results
          (resolved-AllEarned id result s.waiting_list earned);
    completed = h.completed;
    dones = λ j r e. elim (Eq-cases id j) [
      | inl same ↦
          let here = subst (λ i. lookup i (insert id result s.done_dict) ≡ some r) (sym same) e in
          let q : some result ≡ some r = sym (lookup-insert_self id result s.done_dict) ∙ here in
          let p : result ≡ r = some-injective result r q in
          subst (Earned j) p (subst (λ i. Earned i result) same earned)
      | inr other ↦ h.dones j r (sym (lookup-insert_ne id j result s.done_dict other) ∙ e)
    ];
  }

  -- A worker has a result just where Work gives it.
  outcome-work :
      (t result : ℕ) → outcome identifier work done t ≡ some result → work t ≡ some result
  outcome-work t result = go (done t)
    where
      go : (b : Bool) → (if b then none else work t) ≡ some result → work t ≡ some result
      go true e = absurd (cc)
      go false e = e

  finish_work-IsSound :
      (t : ℕ) (o : Option ℕ) (others : List ℕ) (s : PipelineProcess)
      → ((result : ℕ) → o ≡ some result → work t ≡ some result)
      → IsSound s
      → IsSound (finish_work identifier work done t o others s)
  unfolding finish_work
  finish_work-IsSound t none others s earned h = record {
    results = h.results;
    completed = h.completed;
    dones = h.dones;
  }
  finish_work-IsSound t (some r) others s earned h = record {
    results =
        append-AllEarned s.result_queue ((t, r) ∷ []) h.results ((t, refl, earned r refl), tt);
    completed =
        append-AllCompleted s.completed_queue (identifier t) r h.completed (t, refl, earned r refl);
    dones = h.dones;
  }

  PipelineStep-IsSound :
      (s s' : PipelineProcess) → PipelineStep identifier work done s s' → IsSound s → IsSound s'
  PipelineStep-IsSound s s' (dispatch_step t rest e same) h = subst IsSound (sym same) (
      dispatch-IsSound t (record s { task_queue = rest })
        (record { results = h.results; completed = h.completed; dones = h.dones }))
  PipelineStep-IsSound s s' (work_step t before after e same) h = subst IsSound (sym same) (
      finish_work-IsSound t (outcome identifier work done t) (before ++ after) s
        (λ r p. outcome-work t r p) h)
  PipelineStep-IsSound s s' (duplicate_step t rest runs e same) h =
      let k : IsSound (record s { helper_queue = rest }) = record {
        results = h.results;
        completed = h.completed;
        dones = h.dones;
      } in
      subst IsSound (sym same) (
        if-both IsSound (done t)
          (record { results = h.results; completed = h.completed; dones = h.dones })
          (place_duplicate-IsSound t (lookup (identifier t) s.done_dict)
            (record s { helper_queue = rest }) refl k))
  PipelineStep-IsSound s s' (completed_step id result rest runs e same) h =
      let (first, others) = subst AllCompleted e h.completed in
      subst IsSound (sym same) (
        take_completed-IsSound id result (record s { completed_queue = rest }) first
          (record { results = h.results; completed = others; dones = h.dones }))

  -- However the process, the workers and the helper interleave, each task in the result queue has the
  -- result of the work on a task with its identifier, on itself or on one that it is a duplicate of, if
  -- it is so at the start.
  pub PipelineSteps-IsSound :
      (s s' : PipelineProcess) → PipelineSteps identifier work done s s' → IsSound s → IsSound s'
  PipelineSteps-IsSound s s' no_pipeline_steps h = h
  PipelineSteps-IsSound s s' (one_more_step {t} before last) h =
      PipelineStep-IsSound t s' last (PipelineSteps-IsSound s t before h)
