-- ===== src/Crosperf/ImageManager/Allocate/Runs.antt =====
-- Calls of `allocate` of crosperf/machine_image_manager.py, for any duts and in any order, after the
-- initial allocation: they are all that changes the manager from there on.
use external_toolchain_utils.Crosperf.ImageManager.Allocate.{
  allocate-IsAllocation, allocate-count_free, count_free-put_le, IsAllocation, count_free,
}
use external_toolchain_utils.Crosperf.ImageManager.{ImageManager, allocate, ordinal, take_cell}
use external_toolchain_utils.Prelude.Equality.{beq_false}
use mathlib.Core.Path.{subst}
use external_toolchain_utils.Prelude.{
  ℕ, ◌+◌, ◌≤◌, ◌<◌, ◌≡◌, refl, sym, ◌∙◌, inl, inr, Option, none, some, List, [], ◌∷◌, arith,
  ok_injective, if◌then◌else◌, Option-cases, key_error, ok, err, Eq, nat_eq, ◌≟◌, Eq-cases,
}

-- The calls that have returned, the last one first, each with its dut and the label that it got.
pub data AllocateCalls {ℓ} {D : Type ℓ} ⦃e : Eq D⦄ (s : ImageManager D)
    : List (D × Option ℕ) → ImageManager D → Type ℓ where
  no_allocate_calls : AllocateCalls s [] s
  one_allocate_call :
      {calls : List (D × Option ℕ)} {t u : ImageManager D}
      → AllocateCalls s calls t
      → (pending : Option (ℕ → ℕ)) (name : D) (label : Option ℕ)
      → allocate pending name t ≡ ok (u, label)
      → AllocateCalls s ((name, label) ∷ calls) u

module _ {ℓ} {D : Type ℓ} ⦃e : Eq D⦄ where
  -- How often a call for the dut `name` has returned a label.
  abbrev pub times_imaged : D → List (D × Option ℕ) → ℕ
  times_imaged name [] = 0
  times_imaged name ((d, none) ∷ calls) = times_imaged name calls
  times_imaged name ((d, some i) ∷ calls) = times_imaged name calls + (if d ≟ name then 1 else 0)

  -- What every call leaves as it is, and that no column gains a free cell.
  abbrev Shrinks : ImageManager D → ImageManager D → Type ℓ
  Shrinks s s' =
      (s'.n_labels ≡ s.n_labels)
      × (s'.dut_names ≡ s.dut_names)
      × ((j : ℕ) → count_free s'.matrix j s.n_labels ≤ count_free s.matrix j s.n_labels)

  IsAllocation-Shrinks :
      (pending : Option (ℕ → ℕ)) (j : ℕ) (s s' : ImageManager D) (label : Option ℕ)
      → IsAllocation pending s j (s', label)
      → Shrinks s s'
  unfolding take_cell
  IsAllocation-Shrinks pending j s s' none (same, _, _) = rw same (refl, refl, λ k. omega arith)
  IsAllocation-Shrinks pending j s s' (some i) (_, same, _) =
      rw same (refl, refl, λ k. count_free-put_le s.matrix i j k s.n_labels)

  allocate-Shrinks :
      (pending : Option (ℕ → ℕ)) (name : D) (s s' : ImageManager D) (label : Option ℕ)
      → allocate pending name s ≡ ok (s', label)
      → Shrinks s s'
  unfolding allocate
  allocate-Shrinks pending name s s' label h = elim (Option-cases (ordinal s.dut_names name)) [
    | inl unknown ↦ absurd (let p : err key_error ≡ ok (s', label) = rw unknown at h in cc)
    | inr (j, known) ↦
        let (r, run, chosen) = allocate-IsAllocation pending name s j known in
        IsAllocation-Shrinks pending j s s' label (
          subst (IsAllocation pending s j) (ok_injective (sym run ∙ (unfold allocate in h))) chosen)
  ]

  AllocateCalls-Shrinks :
      (s s' : ImageManager D) (calls : List (D × Option ℕ))
      → AllocateCalls s calls s'
      → Shrinks s s'
  AllocateCalls-Shrinks s s' [] no_allocate_calls = (refl, refl, λ j. omega arith)
  AllocateCalls-Shrinks s s' _ (one_allocate_call {calls} {t} before pending name label run) =
      let (labels, names, less) = AllocateCalls-Shrinks s t calls before in
      let (labels', names', less') = allocate-Shrinks pending name t s' label run in
      (
        labels' ∙ labels,
        names' ∙ names,
        λ j. let l = less j in let l' = rw labels at less' j in omega arith,
      )

  -- In every sequence of calls of `allocate`, for any duts and any pending runs: the number of labels
  -- that the dut `name` of column `j` gets, and the number of the cells of its column that are then
  -- planned or blank, are together at most the number of those cells at first. So a dut is imaged
  -- at most as often as it has planned or blank cells.
  pub times_imaged-count_free :
      (s s' : ImageManager D) (calls : List (D × Option ℕ)) (name : D) (j : ℕ)
      → ordinal s.dut_names name ≡ some j
      → AllocateCalls s calls s'
      → times_imaged name calls + count_free s'.matrix j s.n_labels
        ≤ count_free s.matrix j s.n_labels
  times_imaged-count_free s s' [] name j known no_allocate_calls = omega arith
  times_imaged-count_free s s' _ name j known
        (one_allocate_call {calls} {t} before pending d none run) =
      let (labels, _, _) = AllocateCalls-Shrinks s t calls before in
      let (_, _, less) = allocate-Shrinks pending d t s' none run in
      let l = rw labels at less j in
      let now = times_imaged-count_free s t calls name j known before in omega arith
  times_imaged-count_free s s' _ name j known
        (one_allocate_call {calls} {t} before pending d (some i) run) =
      let (labels, names, _) = AllocateCalls-Shrinks s t calls before in
      let (_, _, less) = allocate-Shrinks pending d t s' (some i) run in
      let l = rw labels at less j in
      let now = times_imaged-count_free s t calls name j known before in
      elim (Eq-cases d name) [
        | inl same ↦
            let at_j : ordinal t.dut_names d ≡ some j = rw (names, same) known in
            let drop : count_free s'.matrix j t.n_labels < count_free t.matrix j t.n_labels =
              allocate-count_free pending d t j i s' at_j run in
            let fewer = rw labels at drop in let counted = (e.beq_iff d name).1 same in ground arith
        | inr other ↦ let counted = beq_false d name other in ground arith
      ]
