-- ===== src/Bisect/SearchState/Switching.antt =====
-- What the switch scripts of binary_search_tool/binary_search_state.py have last been told of each item.
use external_toolchain_utils.Bisect.SearchState.{
  switch_to_good, switch_round, good_side, bad_side, switch_items, run_switch, SearchState, Side,
  minus,
}
use external_toolchain_utils.Prelude.Equality.{contains-nil, contains-append}
use external_toolchain_utils.Prelude.{
  ◌≡◌, refl, sym, ◌∙◌, inl, inr, Bool, true, false, not, ◌&&◌, ◌||◌, Option, none, some, List, [],
  ◌∷◌, ◌++◌, arith, if◌then◌else◌, Bool-cases, true-false, Eq, nat_eq, ◌≟◌, contains,
}

and_false : (b : Bool) → false ≡ (not b && false)
and_false true = refl
and_false false = refl

-- A test on the head, for an item that the first list has or has not.
minus-head :
    (known_k here rest : Bool)
    → (here ≡ true → known_k ≡ true)
    → (not known_k && rest) ≡ (not known_k && (here || rest))
minus-head true here rest h = refl
minus-head false true rest h = absurd (true-false (h refl) refl)
minus-head false false rest h = refl

new-head :
    (known_k here rest : Bool)
    → (here ≡ true → known_k ≡ false)
    → (here || (not known_k && rest)) ≡ (not known_k && (here || rest))
new-head true true rest h = absurd (true-false refl (h refl))
new-head true false rest h = refl
new-head false here rest h = refl

or_false : (a b : Bool) → (a || b) ≡ true → b ≡ false → a ≡ true
or_false a b h p = ground arith

not_and : (a b : Bool) → (not a && b) ≡ true → (a ≡ false) × (b ≡ true)
not_and a b h = ground arith

module _ {K : Type 0} ⦃e : Eq K⦄ where
  -- The last script that was given the item.
  unfoldable pub last_side : K → List (Side × List K) → Option Side
  last_side k [] = none
  last_side k ((side, items) ∷ log) = if contains items k then some side else last_side k log

  -- The items noted as good or bad are those that a script has last switched so.
  abbrev pub Tracks : SearchState K → Type 0
  Tracks s =
      (side : Side) (k : K) → contains (s.currently side) k ≡ true → last_side k s.log ≡ some side

  contains-cons : (x : K) (xs : List K) (k : K) → contains (x ∷ xs) k ≡ (k ≟ x || contains xs k)
  unfolding contains
  contains-cons x xs k = refl

  contains-minus :
      (known xs : List K) (k : K)
      → contains (minus known xs) k ≡ (not (contains known k) && contains xs k)
  unfolding minus
  contains-minus known [] k = rw (contains-nil k) (and_false (contains known k))
  contains-minus known (x ∷ xs) k = elim (Bool-cases (contains known x)) [
    | inl old ↦
        rw (old, contains-minus known xs k, contains-cons x xs k)
          (minus-head (contains known k) (k ≟ x) (contains xs k) (λ h. moved known x k true old h))
    | inr new ↦
        rw
          (new, contains-cons x (minus known xs) k, contains-minus known xs k, contains-cons x xs k)
          (new-head (contains known k) (k ≟ x) (contains xs k) (λ h. moved known x k false new h))
  ]
    where
      moved :
          (known : List K) (x k : K) (b : Bool)
          → contains known x ≡ b
          → (k ≟ x) ≡ true
          → contains known k ≡ b
      moved known x k b at h = rw ((e.beq_iff k x).0 h) at

  last_side-given :
      (side : Side) (items : List K) (log : List (Side × List K)) (k : K)
      → contains items k ≡ true
      → last_side k ((side, items) ∷ log) ≡ some side
  unfolding last_side
  last_side-given side items log k h = rw h

  last_side-others :
      (side : Side) (items : List K) (log : List (Side × List K)) (k : K)
      → contains items k ≡ false
      → last_side k ((side, items) ∷ log) ≡ last_side k log
  unfolding last_side
  last_side-others side items log k h = rw h

  joined :
      (side : Side) (items : List K) (s : SearchState K) (k : K)
      → Tracks s
      → contains (s.currently side ++ items) k ≡ true
      → last_side k ((side, items) ∷ s.log) ≡ some side
  joined side items s k tracks h = elim (Bool-cases (contains items k)) [
    | inl given ↦ last_side-given side items s.log k given
    | inr old ↦
        last_side-others side items s.log k old
        ∙ tracks side k (
            or_false (contains (s.currently side) k) (contains items k)
              (sym (contains-append (s.currently side) items k) ∙ h) old)
  ]

  removed :
      (side other : Side) (items : List K) (s : SearchState K) (k : K)
      → Tracks s
      → contains (minus items (s.currently other)) k ≡ true
      → last_side k ((side, items) ∷ s.log) ≡ some other
  removed side other items s k tracks h =
      let (not_given, noted) =
        not_and (contains items k) (contains (s.currently other) k)
          (sym (contains-minus items (s.currently other) k) ∙ h) in
      last_side-others side items s.log k not_given ∙ tracks other k noted

  run_switch-Tracks :
      (side : Side) (items : List K) (s : SearchState K)
      → Tracks s
      → Tracks (run_switch side items s)
  unfolding run_switch
  run_switch-Tracks side [] s tracks side' k h = tracks side' k h
  run_switch-Tracks good_side (x ∷ xs) s tracks good_side k h =
      joined good_side (x ∷ xs) s k tracks h
  run_switch-Tracks good_side (x ∷ xs) s tracks bad_side k h =
      removed good_side bad_side (x ∷ xs) s k tracks h
  run_switch-Tracks bad_side (x ∷ xs) s tracks good_side k h =
      removed bad_side good_side (x ∷ xs) s k tracks h
  run_switch-Tracks bad_side (x ∷ xs) s tracks bad_side k h = joined bad_side (x ∷ xs) s k tracks h

  run_switch-given :
      (side : Side) (items : List K) (s : SearchState K) (k : K)
      → contains items k ≡ true
      → last_side k (run_switch side items s).log ≡ some side
  unfolding run_switch
  run_switch-given side [] s k h = absurd (true-false h (contains-nil k))
  run_switch-given side (x ∷ xs) s k h = last_side-given side (x ∷ xs) s.log k h

  run_switch-others :
      (side : Side) (items : List K) (s : SearchState K) (k : K)
      → contains items k ≡ false
      → last_side k (run_switch side items s).log ≡ last_side k s.log
  unfolding run_switch
  run_switch-others side [] s k h = refl
  run_switch-others side (x ∷ xs) s k h = last_side-others side (x ∷ xs) s.log k h

  -- Every item given to SwitchToGood or SwitchToBad has then last been switched to that side, also
  -- where only the items not yet noted there are switched; the other items stay as they were; and what
  -- is noted keeps to what the scripts were told.
  pub switch_items-Tracks :
      (side : Side) (items : List K) (s : SearchState K)
      → Tracks s
      → Tracks (switch_items side items s)
        × ((k : K)
            → contains items k ≡ true
            → last_side k (switch_items side items s).log ≡ some side)
        × ((k : K)
            → contains items k ≡ false
            → last_side k (switch_items side items s).log ≡ last_side k s.log)
  unfolding switch_items
  switch_items-Tracks side items s tracks = elim (Bool-cases s.incremental) [
    | inl some_items ↦ simp some_items (
      run_switch-Tracks side (minus (s.currently side) items) s tracks,
      (λ k h. incremental-given side items s k tracks h),
      (λ k h. run_switch-others side (minus (s.currently side) items) s k (
          contains-minus (s.currently side) items k
          ∙ rw h (sym (and_false (contains (s.currently side) k))))),
    )
    | inr all_items ↦ simp all_items (
      run_switch-Tracks side items s tracks,
      (λ k h. run_switch-given side items s k h),
      (λ k h. run_switch-others side items s k h),
    )
  ]
    where
      incremental-given :
          (side : Side) (items : List K) (s : SearchState K) (k : K)
          → Tracks s
          → contains items k ≡ true
          → last_side k (run_switch side (minus (s.currently side) items) s).log ≡ some side
      incremental-given side items s k tracks h =
          elim (Bool-cases (contains (s.currently side) k)) [
            | inl noted ↦
                run_switch-others side (minus (s.currently side) items) s k
                  (contains-minus (s.currently side) items k ∙ rw noted)
                ∙ tracks side k noted
            | inr new ↦
                run_switch-given side (minus (s.currently side) items) s k
                  (contains-minus (s.currently side) items k ∙ rw (new, h))
          ]

  -- Let the sets of good and bad items of one iteration have no item in common. When SwitchToGood and
  -- SwitchToBad have been called, every good item has last been switched to good and every bad item
  -- to bad, and what is noted keeps to what the scripts were told.
  pub switch_round-Tracks :
      (good_items bad_items : List K) (s : SearchState K)
      → Tracks s
      → ((k : K) → contains good_items k ≡ true → contains bad_items k ≡ false)
      → Tracks (switch_round good_items bad_items s)
        × ((k : K)
            → contains good_items k ≡ true
            → last_side k (switch_round good_items bad_items s).log ≡ some good_side)
        × ((k : K)
            → contains bad_items k ≡ true
            → last_side k (switch_round good_items bad_items s).log ≡ some bad_side)
  unfolding switch_round
  switch_round-Tracks good_items bad_items s tracks apart =
      let (tracks', good, _) = switch_items-Tracks good_side good_items s tracks in
      let (tracks'', bad, others) =
        switch_items-Tracks bad_side bad_items (switch_to_good good_items s) tracks' in
      (tracks'', (λ k h. others k (apart k h) ∙ good k h), bad)
