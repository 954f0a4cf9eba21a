-- ===== src/Crosperf/ImageManager/Complete/Rounds.antt =====
-- The rounds of compute_initial_allocation of crosperf/machine_image_manager.py, with growing limits.
use external_toolchain_utils.Crosperf.ImageManager.Matrix.{count_planned-put, put_row}
use external_toolchain_utils.Crosperf.ImageManager.Initial.{
  columns-skip, fits_at_lem, columns-found, fits_at, place-Finds, columns, Finds, IsPlan, HasCell,
}
use external_toolchain_utils.Crosperf.ImageManager.{
  put, place_from, blank, place, planned, Matrix, count_planned,
}
use external_toolchain_utils.Prelude.{
  ℕ, zero, suc, ◌+◌, ◌≤◌, ◌<◌, ◌≡◌, refl, ◌∙◌, ◌≢◌, ◌⊎◌, inl, inr, Bool, true, false, arith,
  Bool-cases,
}

-- A matrix with no 'Y'.
abbrev pub IsFresh : Matrix → Type 0
IsFresh m = (i j : ℕ) → m i j ≢ planned

abbrev pub HasBlanks : (n_labels n_duts : ℕ) → Matrix → Type 0
HasBlanks n_labels n_duts m = (i : ℕ) → i < n_labels → HasCell blank m n_duts i

count_planned-IsFresh : (m : Matrix) (j n : ℕ) → IsFresh m → count_planned m j n ≡ 0
unfolding count_planned
count_planned-IsFresh m j zero h = refl
count_planned-IsFresh m j (suc n) h = ground (arith, count_planned-IsFresh m j n h, h n j)

module _ (n_labels n_duts limit : ℕ) where
  columns_complete :
      (next : Matrix → Matrix × Bool) (level : ℕ) (m : Matrix)
      → ((j : ℕ) → m level j ≡ blank → (next (put m level j planned)).1 ≡ true)
      → ((j : ℕ) → count_planned m j n_labels < limit)
      → (cols j k : ℕ) → j ≤ k
      → k < j + cols
      → m level k ≡ blank
      → (columns n_labels n_duts limit next level cols j m).1 ≡ true
  columns_complete next level m works room zero j k h h' e = absurd (omega arith)
  columns_complete next level m works room (suc cols) j k h h' e =
      elim (Bool-cases (fits_at n_labels n_duts limit next level j m)) [
        | inl fits ↦ rw (
            columns-found n_labels n_duts limit next level cols j m fits
              (works j (fits_at_lem n_labels n_duts limit level j m fits).0))
        | inr other ↦ rw (columns-skip n_labels n_duts limit next level cols j m other) (
            columns_complete next level m works room cols (j + 1) k
              (later k (ground (arith, room k)) h) (omega arith) e)
      ]
    where
      later : (k : ℕ) → (j ≡ k → ⊥) → j ≤ k → j + 1 ≤ k
      later k ne h = grind arith

  place_complete :
      (levels level : ℕ) (m : Matrix)
      → level + levels ≤ n_labels
      → ((i : ℕ) → level ≤ i → i < n_labels → HasCell blank m n_duts i)
      → ((j : ℕ) → count_planned m j n_labels + levels ≤ limit)
      → (place n_labels n_duts levels level limit m).1 ≡ true
  place_complete zero level m h blanks room = unfold place in refl
  place_complete (suc levels) level m h blanks room =
      step λ m' blanks' room'. place_complete levels (level + 1) m' (omega arith) blanks' room'
    where
      blanks_after :
          (j : ℕ) (i : ℕ)
          → level + 1 ≤ i
          → i < n_labels
          → HasCell blank (put m level j planned) n_duts i
      blanks_after j i p q =
          let (k, inside, e) = blanks i (omega arith) q in
          (k, inside, put_row m level j planned i k (λ same. absurd (omega arith)) ∙ e)

      room_after :
          (j : ℕ)
          → m level j ≡ blank
          → (j' : ℕ) → count_planned (put m level j planned) j' n_labels + levels ≤ limit
      room_after j e j' = ground (arith, count_planned-put m level j j' n_labels, room j')

      step :
          ((m' : Matrix)
            → ((i : ℕ) → level + 1 ≤ i → i < n_labels → HasCell blank m' n_duts i)
            → ((j : ℕ) → count_planned m' j n_labels + levels ≤ limit)
            → (place n_labels n_duts levels (level + 1) limit m').1 ≡ true)
          → (place n_labels n_duts (suc levels) level limit m).1 ≡ true
      step ih =
          let (k, inside, e) = blanks level (omega arith) (omega arith) in
          unfold place in
          columns_complete (place n_labels n_duts levels (level + 1) limit) level m
            (λ j free. ih (put m level j planned) (blanks_after j) (room_after j free))
            (λ j. let r = room j in omega arith) n_duts 0 k (omega arith) (omega arith) e

-- The limits below the one that is found admit no plan that the search sees.
abbrev pub IsLeast : (n_labels n_duts low limit : ℕ) → Matrix → Type 0
IsLeast n_labels n_duts low limit m =
    (l : ℕ) → low ≤ l → l < limit → (place n_labels n_duts n_labels 0 l m).1 ≡ false

module _ (n_labels n_duts : ℕ) (m : Matrix) where
  place_from-found :
      (rounds limit : ℕ)
      → (place n_labels n_duts n_labels 0 limit m).1 ≡ true
      → place_from n_labels n_duts (suc rounds) limit m
        ≡ ((place n_labels n_duts n_labels 0 limit m).0, true)
  unfolding place_from
  place_from-found rounds limit e = rw e

  pub place_from-retry :
      (rounds limit : ℕ)
      → (place n_labels n_duts n_labels 0 limit m).1 ≡ false
      → (place n_labels n_duts n_labels 0 limit m).0 ≡ m
      → place_from n_labels n_duts (suc rounds) limit m
        ≡ place_from n_labels n_duts rounds (limit + 1) m
  unfolding place_from
  place_from-retry rounds limit e same = rw (e, same)

  pub place_from_total :
      (rounds limit : ℕ)
      → limit + rounds ≡ n_labels + 1
      → 0 < rounds
      → IsFresh m
      → HasBlanks n_labels n_duts m
      → (found : ℕ) × (m' : Matrix) × (place_from n_labels n_duts rounds limit m ≡ (m', true))
        × (limit ≤ found)
        × (found ≤ n_labels)
        × IsPlan n_labels n_duts 0 n_labels found m m'
        × IsLeast n_labels n_duts limit found m
  place_from_total zero limit e h fresh blanks = absurd (omega arith)
  place_from_total (suc rounds) limit e h fresh blanks =
      go (place-Finds n_labels n_duts limit n_labels 0 m (omega arith))
        (λ more. place_from_total rounds (limit + 1) (omega arith) more fresh blanks)
    where
      zero_plus : 0 + n_labels ≡ n_labels
      zero_plus = omega arith

      least :
          (found : ℕ)
          → (place n_labels n_duts n_labels 0 limit m).1 ≡ false
          → IsLeast n_labels n_duts (limit + 1) found m
          → IsLeast n_labels n_duts limit found m
      least found fails rest l p q = elim (split l p) [
        | inl here ↦ rw here fails
        | inr later ↦ rest l later q
      ]
        where
          split : (l : ℕ) → limit ≤ l → (l ≡ limit) ⊎ (limit + 1 ≤ l)
          split l p = grind arith

      go :
          Finds n_labels n_duts 0 (0 + n_labels) limit m (place n_labels n_duts n_labels 0 limit m)
          → (0 < rounds
              → (found : ℕ) × (m' : Matrix) × (place_from n_labels n_duts rounds (limit + 1) m
                  ≡ (m', true))
                × (limit + 1 ≤ found)
                × (found ≤ n_labels)
                × IsPlan n_labels n_duts 0 n_labels found m m'
                × IsLeast n_labels n_duts (limit + 1) found m)
          → (found : ℕ) × (m' : Matrix) × (place_from n_labels n_duts (suc rounds) limit m
              ≡ (m', true))
            × (limit ≤ found)
            × (found ≤ n_labels)
            × IsPlan n_labels n_duts 0 n_labels found m m'
            × IsLeast n_labels n_duts limit found m
      go (inl (done, plan)) rest = (
        limit,
        (place n_labels n_duts n_labels 0 limit m).0,
        place_from-found rounds limit done,
        omega arith,
        omega arith,
        rw zero_plus at plan,
        λ l p q. absurd (omega arith),
      )
      go (inr (fails, same)) rest =
          let (found, m', e', low, high, plan, less) = rest (more fails) in
          (
            found,
            m',
            place_from-retry rounds limit fails same ∙ e',
            omega arith,
            high,
            plan,
            least found fails less,
          )
        where
          clash : {b : Bool} → b ≡ true → b ≡ false → ⊥
          clash p q = cc

          last_works : limit ≡ n_labels → (place n_labels n_duts n_labels 0 limit m).1 ≡ true
          last_works e =
              place_complete n_labels n_duts limit n_labels 0 m (omega arith) (λ i p q. blanks i q)
                (λ j. let c = count_planned-IsFresh m j n_labels fresh in omega arith)

          more : (place n_labels n_duts n_labels 0 limit m).1 ≡ false → 0 < rounds
          more fails = elim (positive rounds) [
            | inl p ↦ p
            | inr z ↦ absurd (clash (last_works (omega arith)) fails)
          ]
            where
              positive : (r : ℕ) → (0 < r) ⊎ (r ≡ 0)
              positive r = grind arith
