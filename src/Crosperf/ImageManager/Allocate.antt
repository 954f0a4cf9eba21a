-- ===== src/Crosperf/ImageManager/Allocate.antt =====
-- What `allocate` of crosperf/machine_image_manager.py chooses, and the free cells of a dut.
pub mod Rows
pub mod Runs
use external_toolchain_utils.Crosperf.ImageManager.Allocate.Rows.{
  IsScan, scan_rows-IsScan, IsCandidate, IsOpen,
}
use external_toolchain_utils.Crosperf.ImageManager.Matrix.{put_row}
use external_toolchain_utils.Crosperf.ImageManager.{
  Scan, scan_rows, no_candidate, ordinal, is_blank, take_cell, allocate_at, is_planned, allocate,
  finish_scan, put, Matrix, ImageManager, incompatible, blank, planned, taken, planned_row, best,
  Cell,
}
use external_toolchain_utils.Prelude.{
  ℕ, zero, suc, ◌+◌, ◌≤◌, ◌<◌, ◌≡◌, refl, ◌⊎◌, inl, inr, true, ◌||◌, Option, none, some, arith,
  length, ◌==◌, if◌then◌else◌, Bool-cases, true-false, ok, Eq,
}

-- A label with runs left whose cell in column `j` is this one.
abbrev pub HasOpen {ℓ} : {D : Type ℓ} → Option (ℕ → ℕ) → ImageManager D → ℕ → Cell → ℕ → Type 0
HasOpen pending s j c i = IsOpen pending s.label_duts (λ k. s.matrix k j) c i

-- What a call of `allocate` for the dut at column `j` may return. A label comes from the plan, or from
-- a blank cell if no planned one is open, and is then on the fewest duts among the open blank ones.
-- No label is returned only if no cell is open.
abbrev pub IsAllocation {ℓ} :
    {D : Type ℓ} → Option (ℕ → ℕ) → ImageManager D → ℕ → ImageManager D × Option ℕ → Type ℓ
IsAllocation pending s j (s', some i) =
    (i < s.n_labels)
    × (s' ≡ take_cell i j s)
    × (HasOpen pending s j planned i
        ⊎ HasOpen pending s j blank i
          × ((k : ℕ) → k < s.n_labels → HasOpen pending s j planned k → ⊥)
          × ((k : ℕ)
              → k < s.n_labels
              → HasOpen pending s j blank k
              → length (s.label_duts i) ≤ length (s.label_duts k)))
IsAllocation pending s j (s', none) =
    (s' ≡ s)
    × ((k : ℕ) → k < s.n_labels → HasOpen pending s j planned k → ⊥)
    × ((k : ℕ) → k < s.n_labels → HasOpen pending s j blank k → ⊥)

-- The cells of column `j` that are planned or blank, in the rows below `n`.
pub count_free : Matrix → ℕ → ℕ → ℕ
count_free m j zero = 0
count_free m j (suc n) =
    count_free m j n + (if is_planned (m n j) || is_blank (m n j) then 1 else 0)

count_free-put_above :
    (m : Matrix) (i j n : ℕ) → n ≤ i → count_free (put m i j taken) j n ≡ count_free m j n
unfolding count_free
count_free-put_above m i j zero h = refl
count_free-put_above m i j (suc n) h =
    ground (arith, count_free-put_above m i j n, put_row m i j taken n j)

count_free-put :
    (m : Matrix) (i j n : ℕ)
    → i < n
    → (is_planned (m i j) || is_blank (m i j)) ≡ true
    → count_free (put m i j taken) j n < count_free m j n
unfolding count_free put
count_free-put m i j zero h e = absurd (omega arith)
count_free-put m i j (suc n) h e = elim (Bool-cases (n == i)) [
  | inl here ↦ ground (arith, count_free-put_above m i j n)
  | inr later ↦ ground (arith, count_free-put m i j n (ground arith) e)
]

pub count_free-put_le :
    (m : Matrix) (i j k n : ℕ) → count_free (put m i j taken) k n ≤ count_free m k n
unfolding count_free put
count_free-put_le m i j k zero = omega arith
count_free-put_le m i j k (suc n) = ground (arith, count_free-put_le m i j k n)

module _ {ℓ} {D : Type ℓ} (pending : Option (ℕ → ℕ)) (j : ℕ) (s : ImageManager D) where
  finish_scan-IsAllocation :
      (r : Scan)
      → IsScan pending s.label_duts (λ k. s.matrix k j) 0 s.n_labels no_candidate r
      → IsAllocation pending s j (finish_scan j r s)
  unfolding finish_scan
  finish_scan-IsAllocation (planned_row k) (inside, is_open) = (inside, refl, inl is_open)
  finish_scan-IsAllocation (best c) (none_planned, cand, least, kept) = elim (Bool-cases c.found) [
    | inl found ↦
        let (inside, is_open, number) = cand found in
        rw found (
          inside,
          refl,
          inr (
            is_open,
            (λ k p o. none_planned k (omega arith) p o),
            λ k p o. let (_, l) = least k (omega arith) p o in omega arith,
          ),
        )
    | inr nothing ↦ rw nothing (
      refl,
      (λ k p o. none_planned k (omega arith) p o),
      λ k p o. true-false (least k (omega arith) p o).0 nothing,
    )
  ]

  pub allocate_at-IsAllocation : IsAllocation pending s j (allocate_at pending j s)
  unfolding allocate_at
  allocate_at-IsAllocation =
      finish_scan-IsAllocation
        (scan_rows pending s.label_duts s.n_labels 0 (λ i. s.matrix i j) no_candidate)
        (scan_rows-IsScan pending s.label_duts (λ k. s.matrix k j) s.n_labels 0 s.n_labels
          no_candidate (omega arith) none_yet)
    where
      none_yet : IsCandidate pending s.label_duts (λ k. s.matrix k j) s.n_labels no_candidate
      none_yet = λ p. absurd (cc)

  free_after :
      (r : ImageManager D × Option ℕ) (i : ℕ)
      → IsAllocation pending s j r
      → r.1 ≡ some i
      → count_free r.0.matrix j s.n_labels < count_free s.matrix j s.n_labels
  unfolding take_cell
  free_after (s', none) i h e = absurd (cc)
  free_after (s', some k) i (inside, same, why) e =
      rw same (count_free-put s.matrix k j s.n_labels inside (free why))
    where
      free_cell :
          (c : Cell)
          → (s.matrix k j ≡ c)
          → (is_planned c || is_blank c) ≡ true
          → (is_planned (s.matrix k j) || is_blank (s.matrix k j)) ≡ true
      free_cell c p q = rw p q

      free :
          HasOpen pending s j planned k
            ⊎ HasOpen pending s j blank k
              × ((k : ℕ) → k < s.n_labels → HasOpen pending s j planned k → ⊥)
              × ((k' : ℕ)
                  → k' < s.n_labels
                  → HasOpen pending s j blank k'
                  → length (s.label_duts k) ≤ length (s.label_duts k'))
          → (is_planned (s.matrix k j) || is_blank (s.matrix k j)) ≡ true
      free (inl o) = free_cell planned o.1 refl
      free (inr (o, _, _)) = free_cell blank o.1 refl

module _ {ℓ} {D : Type ℓ} ⦃e : Eq D⦄ (pending : Option (ℕ → ℕ)) (name : D)
    (s : ImageManager D) where
  -- For a dut that is known, `allocate` returns a label that has runs left and fits the dut and was
  -- not taken by it: a planned one if there is one, or else one that is on the fewest duts; the cell
  -- is taken and the allocation recorded. It returns none, and changes nothing, only if there is no
  -- such label.
  pub allocate-IsAllocation :
      (j : ℕ)
      → ordinal s.dut_names name ≡ some j
      → (r : ImageManager D × Option ℕ) × (allocate pending name s ≡ ok r)
        × IsAllocation pending s j r
  unfolding allocate
  allocate-IsAllocation j known =
      (allocate_at pending j s, rw known, allocate_at-IsAllocation pending j s)

  -- A call that returns a label for a dut strictly decreases the number of planned or blank cells of
  -- the dut's column.
  pub allocate-count_free :
      (j i : ℕ) (s' : ImageManager D)
      → ordinal s.dut_names name ≡ some j
      → allocate pending name s ≡ ok (s', some i)
      → count_free s'.matrix j s.n_labels < count_free s.matrix j s.n_labels
  unfolding allocate
  allocate-count_free j i s' known h =
      same (allocate_at pending j s) (rw known at h)
        (free_after pending j s (allocate_at pending j s) i (allocate_at-IsAllocation pending j s))
    where
      same :
          (r : ImageManager D × Option ℕ)
          → ok r ≡ ok (s', some i)
          → (r.1 ≡ some i → count_free r.0.matrix j s.n_labels < count_free s.matrix j s.n_labels)
          → count_free s'.matrix j s.n_labels < count_free s.matrix j s.n_labels
      same (t, o) e h = ground (arith, h (cc))
