-- ===== src/Bestflags/Generation/Worst.antt =====
-- IsImproved and the first loop of Next of bestflags/iterative_elimination.py.
use external_toolchain_utils.Bestflags.Generation.Best.{compare_costs-eq}
use external_toolchain_utils.Bestflags.Generation.{compare_costs, any_improved, worst_from, Task}
use external_toolchain_utils.Prelude.Equality.{contains-cons_of, contains-cons_self}
use external_toolchain_utils.Prelude.{
  ℕ, ◌≤◌, ◌<◌, ◌≡◌, refl, sym, ◌∙◌, ◌≢◌, ◌⊎◌, inl, inr, true, false, some, List, [], ◌∷◌, arith,
  ltb, ◌==◌, if◌then◌else◌, ltb→lt, ltb→le, le→ltb, ==_iff, Bool-cases, true-false, ok, nat_eq,
  contains,
}

module _ {F : Type 0} (tasks : ℕ → Task F) (parent : ℕ) where
  -- Each task has a cost, which for tasks other than the parent object is at least `c`.
  abbrev pub OthersAtLeast : ℕ → List ℕ → Type 0
  OthersAtLeast c [] = Unit
  OthersAtLeast c (t ∷ ts) =
      ((d : ℕ) × ((tasks t).cost ≡ some d) × (t ≢ parent → c ≤ d)) × OthersAtLeast c ts

  OthersAtLeast-mono : (c c' : ℕ) (ts : List ℕ) → c' ≤ c → OthersAtLeast c ts → OthersAtLeast c' ts
  OthersAtLeast-mono c c' [] h all = tt
  OthersAtLeast-mono c c' (t ∷ ts) h ((d, at, le), all) =
      ((d, at, λ ne. let l = le ne in omega arith), OthersAtLeast-mono c c' ts h all)

  differ : (a b : ℕ) → (a == b) ≡ false → a ≢ b
  differ a b h same = absurd (true-false ((==_iff a b).1 same) h)

  -- Without a cheaper task, IsImproved returns False.
  any_improved-none :
      (cost : ℕ) (ts : List ℕ)
      → (tasks parent).cost ≡ some cost
      → OthersAtLeast cost ts
      → any_improved tasks parent ts ≡ ok false
  unfolding any_improved compare_costs
  any_improved-none cost [] at all = refl
  any_improved-none cost (t ∷ ts) at ((d, q, le), all) =
      let rest = any_improved-none cost ts at all in
      elim (Bool-cases (t == parent)) [
        | inl same ↦ rw (same, rest)
        | inr other ↦
            let l = le (differ t parent other) in
            let dear : ltb d cost ≡ false = le→ltb d cost l in rw (other, q, at, dear, rest)
      ]

  -- A task found among other tasks, cheaper than the first one, or the first one itself.
  abbrev Kept : ℕ → ℕ → ℕ → ℕ → List ℕ → Type 0
  Kept worst cw w c ts = ((w ≡ worst) × (c ≡ cw)) ⊎ (contains ts w ≡ true × (w ≢ parent) × (c < cw))

  Kept-later :
      (worst t : ℕ) (ts : List ℕ) (w : ℕ) (c cw : ℕ)
      → Kept worst cw w c ts
      → Kept worst cw w c (t ∷ ts)
  Kept-later worst t ts w c cw (inl same) = inl same
  Kept-later worst t ts w c cw (inr (member, ne, less)) =
      inr (contains-cons_of t ts w member, ne, less)

  Kept-at_most : (worst : ℕ) (ts : List ℕ) (w : ℕ) (c cw : ℕ) → Kept worst cw w c ts → c ≤ cw
  Kept-at_most worst ts w c cw (inl (_, same)) = omega arith
  Kept-at_most worst ts w c cw (inr (_, _, less)) = omega arith

  Kept-first :
      (worst t : ℕ) (ts : List ℕ) (w : ℕ) (c d cw : ℕ)
      → t ≢ parent
      → d < cw
      → Kept t d w c ts
      → Kept worst cw w c (t ∷ ts)
  Kept-first worst t ts w c d cw ne less (inl (same, at)) =
      inr (rw same (contains-cons_self t ts), (λ h. ne (sym same ∙ h)), omega arith)
  Kept-first worst t ts w c d cw ne less (inr (member, other, lower)) =
      inr (contains-cons_of t ts w member, other, omega arith)

  worst_from-skip :
      (worst t : ℕ) (ts : List ℕ)
      → (t == parent) ≡ true
      → worst_from tasks parent worst (t ∷ ts) ≡ worst_from tasks parent worst ts
  unfolding worst_from
  worst_from-skip worst t ts same = rw same

  worst_from-step :
      (worst t : ℕ) (c d : ℕ) (ts : List ℕ)
      → (t == parent) ≡ false
      → (tasks worst).cost ≡ some c
      → (tasks t).cost ≡ some d
      → worst_from tasks parent worst (t ∷ ts)
        ≡ worst_from tasks parent (if ltb d c then t else worst) ts
  unfolding worst_from
  worst_from-step worst t c d ts other at q =
      rw (other, compare_costs-eq (tasks t) (tasks worst) d c q at)

  worst_from-Kept :
      (worst : ℕ) (cw : ℕ) (ts : List ℕ)
      → (tasks worst).cost ≡ some cw
      → OthersAtLeast 0 ts
      → (w c : ℕ) × (worst_from tasks parent worst ts ≡ ok w)
        × ((tasks w).cost ≡ some c)
        × OthersAtLeast c ts
        × Kept worst cw w c ts
  worst_from-Kept worst cw [] at all =
      (worst, cw, (unfold worst_from in refl), at, tt, inl (refl, refl))
  worst_from-Kept worst cw (t ∷ ts) at ((d, q, _), all) = elim (Bool-cases (t == parent)) [
    | inl same ↦
        let eq = (==_iff t parent).0 same in
        let (w, c, run, p, least, how) = worst_from-Kept worst cw ts at all in
        let first : t ≢ parent → c ≤ d = λ ne. absurd (ne eq) in
        (
          w,
          c,
          worst_from-skip worst t ts same ∙ run,
          p,
          ((d, q, first), least),
          Kept-later worst t ts w c cw how,
        )
    | inr other ↦
        let ne = differ t parent other in
        elim (Bool-cases (ltb d cw)) [
          | inl less ↦
              let (w, c, run, p, least, how) = worst_from-Kept t d ts q all in
              let below : c ≤ d = Kept-at_most t ts w c d how in
              (
                w,
                c,
                worst_from-step worst t cw d ts other at q ∙ rw less run,
                p,
                ((d, q, λ _. below), least),
                Kept-first worst t ts w c d cw ne (ltb→lt d cw less) how,
              )
          | inr not_less ↦
              let (w, c, run, p, least, how) = worst_from-Kept worst cw ts at all in
              let upper : cw ≤ d = ltb→le d cw not_less in
              let below : c ≤ cw = Kept-at_most worst ts w c cw how in
              (
                w,
                c,
                worst_from-step worst t cw d ts other at q ∙ rw not_less run,
                p,
                ((d, q, λ _. omega arith), least),
                Kept-later worst t ts w c cw how,
              )
        ]
  ]

  -- Let all tasks of an iterative elimination have been run. If IsImproved returns True, the loop of
  -- Next finds a task of the generation that is not the parent object, as the assertion after it
  -- demands, which costs less than the parent, and no task that is not the parent object costs less.
  pub worst_from-any_improved :
      (cost : ℕ) (ts : List ℕ)
      → (tasks parent).cost ≡ some cost
      → OthersAtLeast 0 ts
      → any_improved tasks parent ts ≡ ok true
      → (w c : ℕ) × (worst_from tasks parent parent ts ≡ ok w)
        × ((tasks w).cost ≡ some c)
        × contains ts w ≡ true
        × (w ≢ parent)
        × (c < cost)
        × OthersAtLeast c ts
  worst_from-any_improved cost ts at all improved =
      let (w, c, run, p, least, how) = worst_from-Kept parent cost ts at all in
      elim how [
        | inl (_, same) ↦
            let dear : OthersAtLeast cost ts = OthersAtLeast-mono c cost ts (omega arith) least in
            let none_better = any_improved-none cost ts at dear in absurd (cc)
        | inr (member, ne, less) ↦ (w, c, run, p, member, ne, less, least)
      ]
