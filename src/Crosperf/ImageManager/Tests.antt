-- ===== src/Crosperf/ImageManager/Tests.antt =====
-- The example of the source's documentation: three labels and four duts.
use external_toolchain_utils.Crosperf.ImageManager.Allocate.{
  allocate-IsAllocation, count_free, IsAllocation,
}
use external_toolchain_utils.Crosperf.ImageManager.Allocate.Runs.{
  AllocateCalls, no_allocate_calls, one_allocate_call, times_imaged-count_free,
}
use external_toolchain_utils.Crosperf.ImageManager.Complete.Rounds.{IsFresh}
use external_toolchain_utils.Crosperf.ImageManager.Complete.{compute_initial_allocation_fails}
use external_toolchain_utils.Crosperf.ImageManager.{
  take_cell, incompatible, blank, allocate, ordinal_from, ImageManager, Matrix, new_manager,
  compute_initial_allocation,
}
use external_toolchain_utils.Prelude.{
  ℕ, zero, suc, ◌+◌, ◌≤◌, ◌≡◌, refl, false, Option, some, List, [], ◌∷◌, arith, ok, nat_eq,
}

-- L1 does not fit M1 and M2, L2 does not fit M3, and L3 not M1 and M3.
abbrev remotes : List (List ℕ)
remotes = (3 ∷ 4 ∷ []) ∷ (1 ∷ 2 ∷ 4 ∷ []) ∷ (2 ∷ 4 ∷ []) ∷ []

abbrev duts : List ℕ
duts = 1 ∷ 2 ∷ 3 ∷ 4 ∷ []

abbrev cells : Matrix
cells zero (suc (suc j)) = blank
cells zero j = incompatible
cells (suc zero) (suc (suc zero)) = incompatible
cells (suc zero) j = blank
cells (suc (suc i)) (suc zero) = blank
cells (suc (suc i)) (suc (suc (suc j))) = blank
cells (suc (suc i)) j = incompatible

abbrev manager : ImageManager ℕ
manager = record {
  n_labels = 3;
  n_duts = 4;
  dut_names = duts;
  matrix = cells;
  label_duts = λ i. [];
  allocate_log = [];
}

cells-IsFresh : IsFresh cells
cells-IsFresh zero zero e = cc
cells-IsFresh zero (suc zero) e = cc
cells-IsFresh zero (suc (suc j)) e = cc
cells-IsFresh (suc zero) zero e = cc
cells-IsFresh (suc zero) (suc zero) e = cc
cells-IsFresh (suc zero) (suc (suc zero)) e = cc
cells-IsFresh (suc zero) (suc (suc (suc j))) e = cc
cells-IsFresh (suc (suc i)) zero e = cc
cells-IsFresh (suc (suc i)) (suc zero) e = cc
cells-IsFresh (suc (suc i)) (suc (suc zero)) e = cc
cells-IsFresh (suc (suc i)) (suc (suc (suc j))) e = cc

-- A fourth label that fits no dut.
abbrev stuck : ImageManager ℕ
stuck = record manager { matrix = λ i j. elim i [ zero ↦ incompatible | suc k ↦ cells k j ] }

stuck-IsFresh : IsFresh (λ i j. elim i [ zero ↦ incompatible | suc k ↦ cells k j ])
stuck-IsFresh zero j e = cc
stuck-IsFresh (suc i) j e = cells-IsFresh i j e

compute_initial_allocation_fails_example : compute_initial_allocation stuck ≡ (stuck, some false)
compute_initial_allocation_fails_example =
    compute_initial_allocation_fails stuck 0 (omega arith) stuck-IsFresh (omega arith) λ j h e. cc

abbrev two_runs : Option (ℕ → ℕ)
two_runs = some (λ i. 2)

allocate-IsAllocation_example :
    (r : ImageManager ℕ × Option ℕ) × (allocate two_runs 4 manager ≡ ok r)
    × IsAllocation two_runs manager 3 r
unfolding ordinal_from
allocate-IsAllocation_example = allocate-IsAllocation two_runs 4 manager 3 refl

-- Two calls for the dut of column 3, with another one between them.
abbrev three_calls : List (ℕ × Option ℕ)
three_calls = (4, some 0) ∷ (2, some 1) ∷ (4, some 2) ∷ []

run_three_calls :
    AllocateCalls manager three_calls (take_cell 0 3 (take_cell 1 1 (take_cell 2 3 manager)))
unfolding ordinal_from allocate
run_three_calls =
    one_allocate_call
      (one_allocate_call (one_allocate_call no_allocate_calls two_runs 4 (some 2) refl) two_runs 2
        (some 1) refl)
      two_runs 4 (some 0) refl

times_imaged-count_free_example :
    2 + count_free (take_cell 0 3 (take_cell 1 1 (take_cell 2 3 manager))).matrix 3 3
    ≤ count_free manager.matrix 3 3
unfolding ordinal_from
times_imaged-count_free_example =
    times_imaged-count_free manager (take_cell 0 3 (take_cell 1 1 (take_cell 2 3 manager)))
      three_calls 4 3 refl run_three_calls

new_manager-cells :
    (s : ImageManager ℕ) × (new_manager remotes duts ≡ ok s)
    × (s.matrix 0 1 ≡ incompatible)
    × (s.matrix 2 3 ≡ blank)
unfolding new_manager ordinal_from
new_manager-cells = (_, refl, refl, refl)
