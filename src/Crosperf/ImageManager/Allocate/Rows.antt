-- ===== src/Crosperf/ImageManager/Allocate/Rows.antt =====
-- The scan of a dut's column in `allocate` of crosperf/machine_image_manager.py.

use external_toolchain_utils.Crosperf.ImageManager.{
  is_better, is_blank, Scan, scan_rows, Candidate, is_finished, is_planned, consider, incompatible,
  blank, planned, taken, planned_row, best, Cell,
}
use external_toolchain_utils.Prelude.{
  ℕ, zero, suc, ◌+◌, ◌≤◌, ◌<◌, ◌≡◌, refl, sym, ◌∙◌, ◌⊎◌, inl, inr, true, false, Option, List, arith,
  length, if◌then◌else◌, Bool-cases, true-false,
}

module _ (pending : Option (ℕ → ℕ)) (label_duts : ℕ → List ℕ) (column : ℕ → Cell) where
  -- A label that has runs left, and this cell in the dut's column.
  abbrev pub IsOpen : Cell → ℕ → Type 0
  IsOpen c i = (is_finished pending label_duts i ≡ false) × (column i ≡ c)

  abbrev pub IsCandidate : ℕ → Candidate → Type 0
  IsCandidate n c =
      c.found ≡ true
      → (c.row < n) × IsOpen blank c.row × (c.reimage_number ≡ length (label_duts c.row))

  abbrev pub IsScan : (i n : ℕ) → Candidate → Scan → Type 0
  IsScan i n c (planned_row k) = (k < n) × IsOpen planned k
  IsScan i n c (best c') =
      ((k : ℕ) → i ≤ k → k < n → IsOpen planned k → ⊥)
      × IsCandidate n c'
      × ((k : ℕ)
          → i ≤ k
          → k < n
          → IsOpen blank k
          → (c'.found ≡ true) × (c'.reimage_number ≤ length (label_duts k)))
      × (c.found ≡ true → (c'.found ≡ true) × (c'.reimage_number ≤ c.reimage_number))

  consider_lem :
      (i : ℕ) (c : Candidate)
      → ((consider pending label_duts i c).found ≡ true)
        × ((consider pending label_duts i c).reimage_number ≤ length (label_duts i))
        × (c.found ≡ true → (consider pending label_duts i c).reimage_number ≤ c.reimage_number)
  unfolding consider
  consider_lem i c = ground arith

  consider-IsCandidate :
      (i n : ℕ) (c : Candidate)
      → i < n
      → IsOpen blank i
      → IsCandidate n c
      → IsCandidate n (consider pending label_duts i c)
  unfolding consider
  consider-IsCandidate i n c h is_open old = elim (Bool-cases (is_better pending label_duts i c)) [
    | inl better ↦ rw better (λ p. (h, is_open, refl))
    | inr worse ↦ rw worse old
  ]

  scan_step : (i k : ℕ) → i ≤ k → (k ≡ i) ⊎ (i + 1 ≤ k)
  scan_step i k h = grind arith

  -- A row that is neither a plan nor a candidate is passed over.
  IsScan-skip :
      (i n : ℕ) (c : Candidate) (r : Scan)
      → (IsOpen planned i → ⊥)
      → (IsOpen blank i → ⊥)
      → IsScan (i + 1) n c r
      → IsScan i n c r
  IsScan-skip i n c (planned_row k) p q h = h
  IsScan-skip i n c (best c') p q (none_planned, cand, least, kept) = (
    (λ k low high o. elim (scan_step i k low) [
      | inl e ↦ p (rw e at o)
      | inr later ↦ none_planned k later high o
    ]),
    cand,
    (λ k low high o. elim (scan_step i k low) [
      | inl e ↦ absurd (q (rw e at o))
      | inr later ↦ least k later high o
    ]),
    kept,
  )

  IsScan-consider :
      (i n : ℕ) (c : Candidate) (r : Scan)
      → (IsOpen planned i → ⊥)
      → IsScan (i + 1) n (consider pending label_duts i c) r
      → IsScan i n c r
  IsScan-consider i n c (planned_row k) p h = h
  IsScan-consider i n c (best c') p (none_planned, cand, least, kept) =
      let (found, short, better) = consider_lem i c in
      let (found', low') = kept found in
      (
        (λ k low high o. elim (scan_step i k low) [
          | inl e ↦ p (rw e at o)
          | inr later ↦ none_planned k later high o
        ]),
        cand,
        (λ k low high o. elim (scan_step i k low) [
          | inl e ↦ (found', rw e (omega arith))
          | inr later ↦ least k later high o
        ]),
        λ old. (found', let b = better old in omega arith),
      )

  scan-step :
      (rows i : ℕ) (c : Candidate)
      → scan_rows pending label_duts (suc rows) i column c ≡ (
          if is_finished pending label_duts i
          then scan_rows pending label_duts rows (i + 1) column c
          else if is_planned (column i)
          then planned_row i
          else if is_blank (column i)
          then scan_rows pending label_duts rows (i + 1) column (consider pending label_duts i c)
          else scan_rows pending label_duts rows (i + 1) column c)
  unfolding scan_rows
  scan-step rows i c = refl

  pub cell_clash : (c c' : Cell) → is_planned c ≡ true → is_planned c' ≡ false → c ≡ c' → ⊥
  cell_clash c c' p q e = ground arith

  pub scan_rows-IsScan :
      (rows i n : ℕ) (c : Candidate)
      → i + rows ≡ n
      → IsCandidate n c
      → IsScan i n c (scan_rows pending label_duts rows i column c)
  scan_rows-IsScan zero i n c e cand =
      unfold scan_rows in
      (
        (λ k low high o. omega arith),
        cand,
        (λ k low high o. absurd (omega arith)),
        λ old. (old, omega arith),
      )
  scan_rows-IsScan (suc rows) i n c e cand = rw (scan-step rows i c) (
      at_cell (column i) refl (Bool-cases (is_finished pending label_duts i))
        (scan_rows-IsScan rows (i + 1) n c (omega arith) cand)
        λ o.
          scan_rows-IsScan rows (i + 1) n (consider pending label_duts i c) (omega arith)
            (consider-IsCandidate i n c (omega arith) o cand))
    where
      other : (a b : Cell) → column i ≡ a → is_planned a ≡ false → IsOpen planned i → ⊥
      other a b p q o = cell_clash planned a refl q (sym o.1 ∙ p)

      no_blank : (a : Cell) → column i ≡ a → is_blank a ≡ false → IsOpen blank i → ⊥
      no_blank a p q o = blank_clash a q (sym o.1 ∙ p)
        where
          blank_clash : (a : Cell) → is_blank a ≡ false → blank ≡ a → ⊥
          blank_clash a q e = ground arith

      at_cell :
          (cell : Cell)
          → column i ≡ cell
          → (is_finished pending label_duts i ≡ true) ⊎ (is_finished pending label_duts i ≡ false)
          → IsScan (i + 1) n c (scan_rows pending label_duts rows (i + 1) column c)
          → (IsOpen blank i
              → IsScan (i + 1) n (consider pending label_duts i c) (
                  scan_rows pending label_duts rows
                    (i + 1)
                    column
                    (consider pending label_duts i c)))
          → IsScan i n c (
              if is_finished pending label_duts i
              then (scan_rows pending label_duts rows (i + 1) column c)
              else if is_planned (column i)
              then planned_row i
              else if is_blank (column i)
              then (scan_rows pending label_duts rows
                  (i + 1)
                  column
                  (consider pending label_duts i c))
              else (scan_rows pending label_duts rows (i + 1) column c))
      at_cell cell p (inl done) skip weigh = rw done (
          IsScan-skip i n c (scan_rows pending label_duts rows (i + 1) column c)
            (λ o. true-false done o.0) (λ o. true-false done o.0) skip)
      at_cell planned p (inr more) skip weigh = rw (more, p) (omega arith, (more, p))
      at_cell blank p (inr more) skip weigh =
          rw (more, p)
            (IsScan-consider i n c
              (scan_rows pending label_duts rows (i + 1) column (consider pending label_duts i c))
              (other blank blank p refl) (weigh (more, p)))
      at_cell incompatible p (inr more) skip weigh =
          rw (more, p)
            (IsScan-skip i n c (scan_rows pending label_duts rows (i + 1) column c)
              (other incompatible blank p refl) (no_blank incompatible p refl) skip)
      at_cell taken p (inr more) skip weigh =
          rw (more, p)
            (IsScan-skip i n c (scan_rows pending label_duts rows (i + 1) column c)
              (other taken blank p refl) (no_blank taken p refl) skip)
