-- ===== src/Bestflags/Generation/Best.antt =====
-- The best task of a generation whose tasks have all been run.
use external_toolchain_utils.Bestflags.Generation.{
  is_improved, judge_best, Task, climb_is_improved, Generation, best_from, compare_costs,
}
use external_toolchain_utils.Prelude.{
  ℕ, ◌≤◌, ◌<◌, ◌≡◌, refl, ◌∙◌, ◌⊎◌, inl, inr, none, some, List, [], ◌∷◌, arith, ltb, if◌then◌else◌,
  ltb→lt, ltb→le, Bool-cases, ok, Eq,
}

module _ {F : Type 0} where
  abbrev pub IsIn : Task F → List (Task F) → Type 0
  IsIn b [] = ⊥
  IsIn b (t ∷ ts) = (b ≡ t) ⊎ IsIn b ts

  -- Each task has a cost, of at least `c`.
  abbrev pub AtLeast : ℕ → List (Task F) → Type 0
  AtLeast c [] = Unit
  AtLeast c (t ∷ ts) = ((d : ℕ) × (t.cost ≡ some d) × (c ≤ d)) × AtLeast c ts

  AtLeast-mono : (c c' : ℕ) (ts : List (Task F)) → c' ≤ c → AtLeast c ts → AtLeast c' ts
  AtLeast-mono c c' [] h all = tt
  AtLeast-mono c c' (t ∷ ts) h ((d, at, le), all) =
      ((d, at, omega arith), AtLeast-mono c c' ts h all)

  pub compare_costs-eq :
      (t b : Task F) (c d : ℕ) → t.cost ≡ some c → b.cost ≡ some d → is_improved t b ≡ ok (ltb c d)
  unfolding compare_costs
  compare_costs-eq t b c d p q = rw (p, q)

module _ {F : Type 0} ⦃e : Eq F⦄ where
  -- A member of a list that no other costs less than.
  abbrev pub IsBest : Task F → ℕ → List (Task F) → Type 0
  IsBest b c ts = (b.cost ≡ some c) × IsIn b ts × AtLeast c ts

  best_from-step :
      (b t : Task F) (c d : ℕ) (ts : List (Task F))
      → b.cost ≡ some c
      → t.cost ≡ some d
      → best_from (some b) (t ∷ ts) ≡ best_from (some (if ltb d c then t else b)) ts
  unfolding best_from
  best_from-step b t c d ts p q = rw (compare_costs-eq t b d c q p)

  best_from-IsBest :
      (b : Task F) (c : ℕ) (ts : List (Task F))
      → b.cost ≡ some c
      → AtLeast 0 ts
      → (b' : Task F) × (c' : ℕ) × (best_from (some b) ts ≡ ok (some b')) × IsBest b' c' (b ∷ ts)
  best_from-IsBest b c [] p all =
      (b, c, (unfold best_from in refl), (p, inl refl, ((c, p, omega arith), tt)))
  best_from-IsBest b c (t ∷ ts) p ((d, q, _), all) = elim (Bool-cases (ltb d c)) [
    | inl less ↦
        let (b', c', run, (at, member, ((x, r, le), above))) = best_from-IsBest t d ts q all in
        let same : x ≡ d = cc in
        let lower : d < c = ltb→lt d c less in
        let least : AtLeast c' (b ∷ t ∷ ts) = ((c, p, omega arith), ((d, q, omega arith), above)) in
        (b', c', best_from-step b t c d ts p q ∙ rw less run, (at, inr member, least))
    | inr not_less ↦
        let (b', c', run, (at, member, ((x, r, le), above))) = best_from-IsBest b c ts p all in
        let same : x ≡ c = cc in
        let upper : c ≤ d = ltb→le d c not_less in
        let least : AtLeast c' (b ∷ t ∷ ts) = ((c, p, omega arith), ((d, q, omega arith), above)) in
        (
          b',
          c',
          best_from-step b t c d ts p q ∙ rw not_less run,
          (at, skip b b' t ts member, least),
        )
  ]
    where
      skip : (b b' t : Task F) (ts : List (Task F)) → IsIn b' (b ∷ ts) → IsIn b' (b ∷ t ∷ ts)
      skip b b' t ts (inl same) = inl same
      skip b b' t ts (inr member) = inr (inr member)

  climb_eq :
      (g : Generation F) (t : Task F) (ts : List (Task F)) (parent b : Task F) (c cost : ℕ)
      → g.exe_set ≡ t ∷ ts
      → g.candidate_pool ≡ parent ∷ []
      → best_from (some t) ts ≡ ok (some b)
      → b.cost ≡ some c
      → parent.cost ≡ some cost
      → climb_is_improved g ≡ ok (some b, ltb c cost)
  unfolding climb_is_improved judge_best
  climb_eq g t ts parent b c cost tasks parents run at at_parent =
      let first : best_from none (t ∷ ts) ≡ best_from (some t) ts = unfold best_from in refl in
      rw (tasks, parents, first, run, compare_costs-eq b parent c cost at at_parent)

  -- IsImproved of a hill-climbing generation that has a task and one parent, all of them run, takes
  -- as next task one of its tasks with the least cost, and says whether that is less than the
  -- parent's.
  pub climb_is_improved-IsBest :
      (g : Generation F) (t : Task F) (ts : List (Task F)) (parent : Task F) (cost : ℕ)
      → g.exe_set ≡ t ∷ ts
      → g.candidate_pool ≡ parent ∷ []
      → AtLeast 0 g.exe_set
      → parent.cost ≡ some cost
      → (b : Task F) × (c : ℕ) × (climb_is_improved g ≡ ok (some b, ltb c cost))
        × IsBest b c g.exe_set
  climb_is_improved-IsBest g t ts parent cost tasks parents all at =
      let ((d, q, _), rest) : AtLeast 0 (t ∷ ts) = rw tasks at all in
      let (b, c, run, best) = best_from-IsBest t d ts q rest in
      (b, c, climb_eq g t ts parent b c cost tasks parents run best.0 at, rw tasks best)
