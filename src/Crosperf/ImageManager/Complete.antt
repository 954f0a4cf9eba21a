-- ===== src/Crosperf/ImageManager/Complete.antt =====
-- compute_initial_allocation of crosperf/machine_image_manager.py as a whole.
pub mod Rounds
use external_toolchain_utils.Crosperf.ImageManager.Complete.Rounds.{place_from-retry, IsFresh}
use external_toolchain_utils.Crosperf.ImageManager.Matrix.{count_planned-put, put_row}
use external_toolchain_utils.Crosperf.ImageManager.Initial.{
  columns-skip, fits_at_lem, columns-found, fits_at, place-Finds, columns, Finds, HasCell,
}
use external_toolchain_utils.Crosperf.ImageManager.{
  first_limit, compute_initial_allocation, ImageManager, put, place_from, blank, place, planned,
  Matrix, count_planned,
}
use external_toolchain_utils.Prelude.{
  ℕ, zero, suc, ◌+◌, ◌-◌, ◌<◌, ◌≡◌, refl, sym, ◌∙◌, ◌≢◌, ◌⊎◌, inl, inr, false, some, arith, ◌==◌,
}

-- At least two labels, and a number of duts other than one: for a single dut or a single label the
-- code goes its own way and returns None, and without labels there is nothing to place.
abbrev pub Searches {ℓ} : {D : Type ℓ} → ImageManager D → Type 0
Searches s = (s.n_duts ≢ 1) × (s.n_labels ≢ 1) × (0 < s.n_labels)

module _ {ℓ} {D : Type ℓ} (s : ImageManager D) where
  compute-search :
      Searches s
      → compute_initial_allocation s ≡ (
        record s {
          matrix =
              (place_from s.n_labels s.n_duts
                (s.n_labels + 1 - first_limit s)
                (first_limit s)
                s.matrix).0;
        },
        some
            (place_from s.n_labels s.n_duts
              (s.n_labels + 1 - first_limit s)
              (first_limit s)
              s.matrix).1,
      )
  unfolding compute_initial_allocation
  compute-search (h, k, _) = rw (ne→== s.n_duts 1 h, ne→== s.n_labels 1 k)
    where
      ne→== : (a b : ℕ) → a ≢ b → (a == b) ≡ false
      ne→== a b h = ground arith

  place_from_fails :
      (i rounds limit : ℕ)
      → i < s.n_labels
      → IsFresh s.matrix
      → ((j : ℕ) → j < s.n_duts → s.matrix i j ≢ blank)
      → place_from s.n_labels s.n_duts rounds limit s.matrix ≡ (s.matrix, false)
  place_from_fails i zero limit h fresh none_fits = unfold place_from in refl
  place_from_fails i (suc rounds) limit h fresh none_fits =
      go (place-Finds s.n_labels s.n_duts limit s.n_labels 0 s.matrix (omega arith))
        (place_from_fails i rounds (limit + 1) h fresh none_fits)
    where
      found_one :
          (m' : Matrix) (j : ℕ)
          → j < s.n_duts
          → m' i j ≡ planned
          → (m' i j ≡ s.matrix i j) ⊎ (s.matrix i j ≡ blank) × (m' i j ≡ planned)
          → ⊥
      found_one m' j p e (inl q) = fresh i j (sym q ∙ e)
      found_one m' j p e (inr q) = none_fits j p q.0

      go :
          Finds s.n_labels s.n_duts 0
            (0 + s.n_labels)
            limit
            s.matrix
            (place s.n_labels s.n_duts s.n_labels 0 limit s.matrix)
          → place_from s.n_labels s.n_duts rounds (limit + 1) s.matrix ≡ (s.matrix, false)
          → place_from s.n_labels s.n_duts (suc rounds) limit s.matrix ≡ (s.matrix, false)
      go (inl (done, plan)) rest =
          let (j, p, e) = plan.filled i (omega arith) (omega arith) in
          absurd (
            found_one (place s.n_labels s.n_duts s.n_labels 0 limit s.matrix).0 j p e
              (plan.extends i j))
      go (inr (fails, same)) rest =
          place_from-retry s.n_labels s.n_duts s.matrix rounds limit fails same ∙ rest

  -- For at least two labels, and a number of duts other than one: if no cell is planned yet and some
  -- label fits no dut, the initial allocation returns False and the matrix is as it was.
  pub compute_initial_allocation_fails :
      (i : ℕ)
      → Searches s
      → IsFresh s.matrix
      → i < s.n_labels
      → ((j : ℕ) → j < s.n_duts → s.matrix i j ≢ blank)
      → compute_initial_allocation s ≡ (s, some false)
  compute_initial_allocation_fails i h fresh p none_fits =
      compute-search h
      ∙ rw (place_from_fails i (s.n_labels + 1 - first_limit s) (first_limit s) p fresh none_fits)
