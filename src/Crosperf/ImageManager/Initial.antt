-- ===== src/Crosperf/ImageManager/Initial.antt =====
-- _compute_initial_allocation_internal of crosperf/machine_image_manager.py: the backtracking search
-- for a plan within one limit.
use external_toolchain_utils.Crosperf.ImageManager.Matrix.{
  count_planned-put, put_cases, put_self, put-put_blank,
}
use external_toolchain_utils.Crosperf.ImageManager.{
  place, put, count_planned, try_columns, blank, planned, is_blank, Matrix, Cell,
}
use external_toolchain_utils.Prelude.{
  ℕ, zero, suc, ◌+◌, ◌≤◌, ◌<◌, ◌≡◌, refl, ◌∙◌, ◌⊎◌, inl, inr, Bool, true, false, ◌&&◌, arith, ltb,
  Bool-cases,
}

-- Cells change from ' ' to 'Y' alone.
abbrev pub Extends : Matrix → Matrix → Type 0
Extends m m' = (i j : ℕ) → (m' i j ≡ m i j) ⊎ (m i j ≡ blank) × (m' i j ≡ planned)

abbrev pub HasCell : Cell → Matrix → ℕ → ℕ → Type 0
HasCell c m n_duts i = (j : ℕ) × (j < n_duts) × (m i j ≡ c)

-- The rows from `low` up to `high` have got a 'Y', and no column more than the limit.
pub record IsPlan (n_labels n_duts low high limit : ℕ) (m m' : Matrix) : Type 0 where
  pub extends : Extends m m'
  pub filled : (i : ℕ) → low ≤ i → i < high → HasCell planned m' n_duts i
  pub bounded : (j : ℕ) → count_planned m j n_labels ≤ limit → count_planned m' j n_labels ≤ limit

-- What the search returns: a plan, or the matrix as it was.
abbrev pub Finds : (n_labels n_duts low high limit : ℕ) → Matrix → Matrix × Bool → Type 0
Finds n_labels n_duts low high limit m r =
    ((r.1 ≡ true) × IsPlan n_labels n_duts low high limit m r.0) ⊎ ((r.1 ≡ false) × (r.0 ≡ m))

Extends-trans : (m m' m'' : Matrix) → Extends m m' → Extends m' m'' → Extends m m''
Extends-trans m m' m'' h k i j = ground (arith, h i j, k i j)

blank_of : (c : Cell) → is_blank c ≡ true → c ≡ blank
blank_of c h = ground arith

module _ (n_labels n_duts limit : ℕ) where
  -- A 'Y' in row `level` and a plan for the rows above make a plan.
  IsPlan-step :
      (m m' : Matrix) (level high j : ℕ)
      → m level j ≡ blank
      → j < n_duts
      → level < n_labels
      → count_planned m j n_labels < limit
      → IsPlan n_labels n_duts (level + 1) high limit (put m level j planned) m'
      → IsPlan n_labels n_duts level high limit m m'
  IsPlan-step m m' level high j e h k room plan = record {
    extends =
        Extends-trans m (put m level j planned) m'
          (λ i' j'. first i' j' (put_cases m level j planned i' j')) plan.extends;
    filled = λ i p q. fill i q (split i p);
    bounded = λ j' p. plan.bounded j' (ground (arith, count_planned-put m level j j' n_labels k e));
  }
    where
      first :
          (i' j' : ℕ)
          → ((i' ≡ level) × (j' ≡ j) × (put m level j planned i' j' ≡ planned))
            ⊎ (put m level j planned i' j' ≡ m i' j')
          → (put m level j planned i' j' ≡ m i' j')
            ⊎ (m i' j' ≡ blank) × (put m level j planned i' j' ≡ planned)
      first i' j' (inl (p, q, r)) = inr (rw (p, q) e, r)
      first i' j' (inr r) = inl r

      split : (i : ℕ) → level ≤ i → (i ≡ level) ⊎ (level + 1 ≤ i)
      split i p = grind arith

      kept :
          (m' level j ≡ put m level j planned level j)
            ⊎ (put m level j planned level j ≡ blank) × (m' level j ≡ planned)
          → m' level j ≡ planned
      kept (inl p) = p ∙ put_self m level j planned
      kept (inr p) = p.1

      fill : (i : ℕ) → i < high → (i ≡ level) ⊎ (level + 1 ≤ i) → HasCell planned m' n_duts i
      fill i q (inl p) = (j, h, rw p (kept (plan.extends level j)))
      fill i q (inr p) = plan.filled i p q

  module _ (next : Matrix → Matrix × Bool) (level : ℕ) where
    abbrev pub fits_at : ℕ → Matrix → Bool
    fits_at j m = is_blank (m level j) && ltb (count_planned m j n_labels) limit

    abbrev pub columns : ℕ → ℕ → Matrix → Matrix × Bool
    columns = try_columns n_labels n_duts next level limit

    pub columns-found :
        (cols j : ℕ) (m : Matrix)
        → fits_at j m ≡ true
        → (next (put m level j planned)).1 ≡ true
        → columns (suc cols) j m ≡ ((next (put m level j planned)).0, true)
    unfolding try_columns
    columns-found cols j m fits e = rw (fits, e)

    pub columns-retry :
        (cols j : ℕ) (m : Matrix)
        → fits_at j m ≡ true
        → (next (put m level j planned)).1 ≡ false
        → columns (suc cols) j m
          ≡ columns cols (j + 1) (put (next (put m level j planned)).0 level j blank)
    unfolding try_columns
    columns-retry cols j m fits e = rw (fits, e)

    pub columns-skip :
        (cols j : ℕ) (m : Matrix)
        → fits_at j m ≡ false
        → columns (suc cols) j m ≡ columns cols (j + 1) m
    unfolding try_columns
    columns-skip cols j m fits = rw fits

  pub fits_at_lem :
      (level j : ℕ) (m : Matrix)
      → (is_blank (m level j) && ltb (count_planned m j n_labels) limit) ≡ true
      → (m level j ≡ blank) × (count_planned m j n_labels < limit)
  fits_at_lem level j m h = (blank_of (m level j) (ground arith), ground arith)

  module _ (next : Matrix → Matrix × Bool) (level high : ℕ) (inside : level < n_labels)
      (next_Finds : (m : Matrix) → Finds n_labels n_duts (level + 1) high limit m (next m)) where
    columns-Finds :
        (cols j : ℕ) (m : Matrix)
        → j + cols ≤ n_duts
        → Finds n_labels n_duts level high limit m (columns next level cols j m)
    columns-Finds zero j m h = inr (unfold try_columns in (refl, refl))
    columns-Finds (suc cols) j m h = elim (Bool-cases (fits_at next level j m)) [
      | inl fits ↦
          tried fits (next_Finds (put m level j planned))
            (columns-Finds cols (j + 1) m (omega arith))
      | inr other ↦
          rw (columns-skip next level cols j m other) (columns-Finds cols (j + 1) m (omega arith))
    ]
      where
        tried :
            fits_at next level j m ≡ true
            → Finds n_labels n_duts
                (level + 1)
                high
                limit
                (put m level j planned)
                (next (put m level j planned))
            → Finds n_labels n_duts level high limit m (columns next level cols (j + 1) m)
            → Finds n_labels n_duts level high limit m (columns next level (suc cols) j m)
        tried fits (inl (e, plan)) rest =
            let (e', room) = fits_at_lem level j m fits in
            rw (columns-found next level cols j m fits e) (
              inl (
                refl,
                IsPlan-step m (next (put m level j planned)).0 level high j e' (omega arith) inside
                    room plan,
              ))
        tried fits (inr (e, same)) rest =
            let (e', room) = fits_at_lem level j m fits in
            rw
              (
                columns-retry next level cols j m fits e,
                put-put_blank m (next (put m level j planned)).0 level j e' same,
              )
              rest

  pub place-Finds :
      (levels level : ℕ) (m : Matrix)
      → level + levels ≤ n_labels
      → Finds n_labels n_duts level
          (level + levels)
          limit
          m
          (place n_labels n_duts levels level limit m)
  place-Finds zero level m h = inl (
      unfold place in
      (
        refl,
        record {
          extends = λ i j. inl refl;
          filled = λ i p q. absurd (omega arith);
          bounded = λ j p. p;
        },
      ))
  place-Finds (suc levels) level m h =
      let e : level + 1 + levels ≡ level + suc levels = omega arith in
      step (λ m'. rw e at (place-Finds levels (level + 1) m' (omega arith)))
    where
      step :
          ((m' : Matrix)
            → Finds n_labels n_duts
                (level + 1)
                (level + suc levels)
                limit
                m'
                (place n_labels n_duts levels (level + 1) limit m'))
          → Finds n_labels n_duts level
              (level + suc levels)
              limit
              m
              (place n_labels n_duts (suc levels) level limit m)
      step ih =
          unfold place in
          columns-Finds (place n_labels n_duts levels (level + 1) limit) level (level + suc levels)
            (omega arith) ih n_duts 0 m (omega arith)
