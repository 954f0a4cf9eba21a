-- ===== src/Bestflags/Pipeline/Served/Hand.antt =====
-- Where the result is that a duplicate waits for, while the process, the workers and the helper go on.
use external_toolchain_utils.Prelude.Dict.{lookup}
use external_toolchain_utils.Prelude.Equality.{
  contains-cons, contains-snoc, contains-cons_self, contains-cons_of,
}
use external_toolchain_utils.Bestflags.Pipeline.{
  perform, PipelineProcess, dispatch, place_duplicate, outcome, finish_work,
}
use external_toolchain_utils.Prelude.{
  ℕ, ◌≡◌, refl, sym, ap, ◌∙◌, ◌⊎◌, inl, inr, Bool, true, false, ◌||◌, Option, none, some, List, [],
  ◌∷◌, ◌++◌, arith, ◌==◌, if◌then◌else◌, ==_iff, or_cases, nat_eq, contains,
}

abbrev pub ids_of : List (ℕ × ℕ) → List ℕ
ids_of [] = []
ids_of ((id, result) ∷ rest) = id ∷ ids_of rest

ids_of-append : (xs ys : List (ℕ × ℕ)) → ids_of (xs ++ ys) ≡ ids_of xs ++ ids_of ys
ids_of-append [] ys = refl
ids_of-append ((id, result) ∷ xs) ys = ap (λ r. id ∷ r) (ids_of-append xs ys)

module _ (identifier : ℕ → ℕ) (work : ℕ → Option ℕ) (done : ℕ → Bool) (all : List ℕ) where
  -- A result for the identifier is there or on its way, or a worker has failed on a task with it.
  pub data InHand (id : ℕ) (s : PipelineProcess) : Type 0 where
    is_done : (result : ℕ) → lookup id s.done_dict ≡ some result → InHand id s
    is_completed : contains (ids_of s.completed_queue) id ≡ true → InHand id s
    is_working : (t : ℕ) → contains s.working t ≡ true → identifier t ≡ id → InHand id s
    is_failed :
        (t : ℕ)
        → contains all t ≡ true
        → identifier t ≡ id
        → outcome identifier work done t ≡ none
        → InHand id s

  pub InHand-same :
      (id : ℕ) (s s' : PipelineProcess)
      → s'.done_dict ≡ s.done_dict
      → s'.completed_queue ≡ s.completed_queue
      → ((t : ℕ) → contains s.working t ≡ true → contains s'.working t ≡ true)
      → InHand id s
      → InHand id s'
  InHand-same id s s' dones completed working (is_done r k) = is_done r (rw dones k)
  InHand-same id s s' dones completed working (is_completed k) = is_completed (rw completed k)
  InHand-same id s s' dones completed working (is_working t k same) =
      is_working t (working t k) same
  InHand-same id s s' dones completed working (is_failed t k same fails) = is_failed t k same fails

  -- `all` has the tasks of the stage.
  pub record IsServed (s : PipelineProcess) : Type 0 where
    pub known : (id : ℕ) → contains s.mycache id ≡ true → InHand id s
    pub queued : (t : ℕ) → contains s.task_queue t ≡ true → contains all t ≡ true
    pub pooled : (t : ℕ) → contains s.working t ≡ true → contains all t ≡ true
    pub helped :
        (t : ℕ) → contains s.helper_queue t ≡ true → contains s.mycache (identifier t) ≡ true
    pub waits :
        (t : ℕ)
        → contains s.waiting_list t ≡ true
        → (contains s.mycache (identifier t) ≡ true) × (lookup (identifier t) s.done_dict ≡ none)

  pub dispatch-IsServed :
      (t : ℕ) (s : PipelineProcess)
      → contains all t ≡ true
      → IsServed s
      → IsServed (dispatch identifier work done t s)
  unfolding dispatch
  dispatch-IsServed t s member h = go (contains s.mycache (identifier t)) refl
    where
      go :
          (there : Bool)
          → contains s.mycache (identifier t) ≡ there
          → IsServed (
              if there then record s { helper_queue = s.helper_queue ++ t ∷ [] } else record s {
                working = s.working ++ t ∷ [];
                mycache = s.mycache ++ identifier t ∷ [];
              })
      go true e = record {
        known = λ id k.
            InHand-same id s (record s { helper_queue = s.helper_queue ++ t ∷ [] }) refl refl
              (λ u c. c) (h.known id k);
        queued = h.queued;
        pooled = h.pooled;
        helped = λ u k.
            elim (or_cases (contains s.helper_queue u) (u == t)
              (sym (contains-snoc s.helper_queue t u) ∙ k)) [
                | inl old ↦ h.helped u old
                | inr new ↦ rw ((==_iff u t).0 new) e
              ];
        waits = h.waits;
      }
      go false e = record {
        known = λ id k.
            elim (or_cases (contains s.mycache id) (id == identifier t)
              (sym (contains-snoc s.mycache (identifier t) id) ∙ k)) [
                | inl old ↦
                    InHand-same id s
                      (record s {
                        working = s.working ++ t ∷ [];
                        mycache = s.mycache ++ identifier t ∷ [];
                      })
                      refl refl (λ u c. rw (contains-snoc s.working t u, c)) (h.known id old)
                | inr new ↦
                    is_working t
                      (rw (contains-snoc s.working t t)
                        (or_true (contains s.working t) (==_refl t)))
                      (sym ((==_iff id (identifier t)).0 new))
              ];
        queued = h.queued;
        pooled = λ u k.
            elim (or_cases (contains s.working u) (u == t)
              (sym (contains-snoc s.working t u) ∙ k)) [
                | inl old ↦ h.pooled u old
                | inr new ↦ rw ((==_iff u t).0 new) member
              ];
        helped = λ u k. rw (contains-snoc s.mycache (identifier t) (identifier u), h.helped u k);
        waits = λ u k.
            let (a, b) = h.waits u k in
            (rw (contains-snoc s.mycache (identifier t) (identifier u), a), b);
      }
        where
          ==_refl : (a : ℕ) → (a == a) ≡ true
          ==_refl a = (==_iff a a).1 refl

          or_true : (x : Bool) {y : Bool} → y ≡ true → x || y ≡ true
          or_true x p = ground arith

  -- A task of the pool is done.
  taken_out :
      (before after : List ℕ) (t u : ℕ)
      → contains (before ++ t ∷ after) u ≡ true
      → (u ≡ t) ⊎ (contains (before ++ after) u ≡ true)
  taken_out [] after t u h = contains-cons t after u h
  taken_out (b ∷ before) after t u h = elim (contains-cons b (before ++ t ∷ after) u h) [
    | inl here ↦ inr (rw here (contains-cons_self b (before ++ after)))
    | inr there ↦ elim (taken_out before after t u there) [
      | inl same ↦ inl same
      | inr rest ↦ inr (contains-cons_of b (before ++ after) u rest)
    ]
  ]

  put_back :
      (before after : List ℕ) (t u : ℕ)
      → contains (before ++ after) u ≡ true
      → contains (before ++ t ∷ after) u ≡ true
  put_back [] after t u h = contains-cons_of t after u h
  put_back (b ∷ before) after t u h = elim (contains-cons b (before ++ after) u h) [
    | inl here ↦ rw here (contains-cons_self b (before ++ t ∷ after))
    | inr there ↦ contains-cons_of b (before ++ t ∷ after) u (put_back before after t u there)
  ]

  completed_ids :
      (t result : ℕ) (s : PipelineProcess) (id : ℕ)
      → contains (ids_of (s.completed_queue ++ (identifier t, result) ∷ [])) id
        ≡ (contains (ids_of s.completed_queue) id || id == identifier t)
  completed_ids t result s id =
      ap (λ l. contains l id) (ids_of-append s.completed_queue ((identifier t, result) ∷ []))
      ∙ contains-snoc (ids_of s.completed_queue) (identifier t) id

  or_true_left : (x y : Bool) → x ≡ true → x || y ≡ true
  or_true_left x y p = ground arith

  or_true_right : (x y : Bool) → y ≡ true → x || y ≡ true
  or_true_right x y p = ground arith

  finish_work-InHand :
      (t : ℕ) (o : Option ℕ) (before after : List ℕ) (s : PipelineProcess) (id : ℕ)
      → s.working ≡ before ++ t ∷ after
      → contains all t ≡ true
      → outcome identifier work done t ≡ o
      → InHand id s
      → InHand id (finish_work identifier work done t o (before ++ after) s)
  unfolding finish_work
  finish_work-InHand t none before after s id split member e (is_done r k) = is_done r k
  finish_work-InHand t none before after s id split member e (is_completed k) = is_completed k
  finish_work-InHand t none before after s id split member e (is_failed u k same fails) =
      is_failed u k same fails
  finish_work-InHand t none before after s id split member e (is_working u k same) =
      elim (taken_out before after t u (rw split at k)) [
        | inl here ↦ is_failed t member (ap identifier (sym here) ∙ same) e
        | inr rest ↦ is_working u rest same
      ]
  finish_work-InHand t (some result) before after s id split member e (is_done r k) = is_done r k
  finish_work-InHand t (some result) before after s id split member e (is_failed u k same fails) =
      is_failed u k same fails
  finish_work-InHand t (some result) before after s id split member e (is_completed k) =
      is_completed (
        completed_ids t result s id
        ∙ or_true_left (contains (ids_of s.completed_queue) id) (id == identifier t) k)
  finish_work-InHand t (some result) before after s id split member e (is_working u k same) =
      elim (taken_out before after t u (rw split at k)) [
        | inl here ↦ is_completed (
            completed_ids t result s id
            ∙ or_true_right (contains (ids_of s.completed_queue) id) (id == identifier t)
                ((==_iff id (identifier t)).1 (sym same ∙ ap identifier here)))
        | inr rest ↦ is_working u rest same
      ]

  pub perform-IsServed :
      (t : ℕ) (before after : List ℕ) (s : PipelineProcess)
      → s.working ≡ before ++ t ∷ after
      → IsServed s
      → IsServed (perform identifier work done t (before ++ after) s)
  unfolding finish_work
  perform-IsServed t before after s split h = go (outcome identifier work done t) refl
    where
      member : contains all t ≡ true
      member = h.pooled t (rw split (there before))
        where
          there : (bs : List ℕ) → contains (bs ++ t ∷ after) t ≡ true
          there [] = contains-cons_self t after
          there (b ∷ bs) = contains-cons_of b (bs ++ t ∷ after) t (there bs)

      others : (u : ℕ) → contains (before ++ after) u ≡ true → contains all u ≡ true
      others u k = h.pooled u (rw split (put_back before after t u k))

      go :
          (o : Option ℕ)
          → outcome identifier work done t ≡ o
          → IsServed (finish_work identifier work done t o (before ++ after) s)
      go none e = record {
        known = λ id k. finish_work-InHand t none before after s id split member e (h.known id k);
        queued = h.queued;
        pooled = others;
        helped = h.helped;
        waits = h.waits;
      }
      go (some result) e = record {
        known = λ id k.
            finish_work-InHand t (some result) before after s id split member e (h.known id k);
        queued = h.queued;
        pooled = others;
        helped = h.helped;
        waits = h.waits;
      }

  pub place_duplicate-IsServed :
      (t : ℕ) (o : Option ℕ) (s : PipelineProcess)
      → lookup (identifier t) s.done_dict ≡ o
      → contains s.mycache (identifier t) ≡ true
      → IsServed s
      → IsServed (place_duplicate identifier work done t o s)
  unfolding place_duplicate
  place_duplicate-IsServed t (some result) s e there h = record {
    known = λ id k.
        InHand-same id s (record s { result_queue = s.result_queue ++ (t, result) ∷ [] }) refl refl
          (λ u c. c) (h.known id k);
    queued = h.queued;
    pooled = h.pooled;
    helped = h.helped;
    waits = h.waits;
  }
  place_duplicate-IsServed t none s e there h = record {
    known = λ id k.
        InHand-same id s (record s { waiting_list = s.waiting_list ++ t ∷ [] }) refl refl (λ u c. c)
          (h.known id k);
    queued = h.queued;
    pooled = h.pooled;
    helped = h.helped;
    waits = λ u k.
        elim (or_cases (contains s.waiting_list u) (u == t)
          (sym (contains-snoc s.waiting_list t u) ∙ k)) [
            | inl old ↦ h.waits u old
            | inr new ↦ rw ((==_iff u t).0 new) (there, e)
          ];
  }
