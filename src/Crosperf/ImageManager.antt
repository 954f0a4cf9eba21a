-- ===== src/Crosperf/ImageManager.antt =====
-- crosperf/machine_image_manager.py: which label is imaged onto which dut.
-- Labels and duts go by their ordinals. `matrix` is read at rows below `n_labels` and columns below
-- `n_duts` alone. A label's `remote` is the list of the names of the duts that it fits, and `None`
-- there is the empty list, which the code treats alike.
pub mod Matrix
pub mod Initial
pub mod Complete
pub mod Allocate
mod Tests
use external_toolchain_utils.Prelude.{
  ℕ, zero, suc, ◌+◌, ◌-◌, Bool, true, false, not, ◌&&◌, ◌||◌, Option, none, some, List, [], ◌∷◌,
  ◌++◌, length, Result, ◌>>=◌, ◌>>◌, some_or_raise, ltb, leb, ◌==◌, if◌then◌else◌, key_error, ok,
  Eq, nat_eq, ◌≟◌,
}

-- 'X', ' ', 'Y' and '_'
pub data Cell : Type 0 where
  incompatible blank planned taken : Cell

abbrev pub Matrix : Type 0
Matrix = ℕ → ℕ → Cell

pub record ImageManager {ℓ} (D : Type ℓ) : Type ℓ where
  pub n_labels : ℕ
  pub n_duts : ℕ
  pub dut_names : List D
  pub matrix : Matrix
  pub label_duts : ℕ → List ℕ
  pub allocate_log : List (ℕ × ℕ)

abbrev pub is_blank : Cell → Bool
is_blank blank = true
is_blank _ = false

abbrev pub is_planned : Cell → Bool
is_planned planned = true
is_planned _ = false

abbrev pub is_incompatible : Cell → Bool
is_incompatible incompatible = true
is_incompatible _ = false

-- `matrix[i][j] = c`
pub put : Matrix → ℕ → ℕ → Cell → Matrix
put m i j c i' j' = if i' == i && j' == j then c else m i' j'

module _ {ℓ} {D : Type ℓ} ⦃e : Eq D⦄ where
  -- `dut_name_ordinal_[name]`: the last dut of that name.
  unfoldable pub ordinal_from : D → ℕ → List D → Option ℕ → Option ℕ
  ordinal_from name i [] found = found
  ordinal_from name i (d ∷ names) found =
      ordinal_from name (i + 1) names (if d ≟ name then some i else found)

  abbrev pub ordinal : List D → D → Option ℕ
  ordinal names name = ordinal_from name 0 names none

  -- The inner loop over a label's `remote`.
  pub mark_compatible : List D → List D → (ℕ → Cell) → Result (ℕ → Cell)
  mark_compatible names [] row = ok row
  mark_compatible names (r ∷ remote) row = do
    j ← some_or_raise key_error (ordinal names r)
    mark_compatible names remote (λ j'. if j' == j then blank else row j')

  unfoldable pub initial_row : List D → List D → Result (ℕ → Cell)
  initial_row names [] = ok (λ j. blank)
  initial_row names (r ∷ remote) = mark_compatible names (r ∷ remote) (λ j. incompatible)

  unfoldable pub initial_rows : List D → List (List D) → Result Matrix
  initial_rows names [] = ok (λ i j. incompatible)
  initial_rows names (remote ∷ remotes) = do
    row ← initial_row names remote
    rows ← initial_rows names remotes
    ok (λ i. elim i [ zero ↦ row | suc k ↦ rows k ])

  -- The constructor.
  unfoldable pub new_manager : List (List D) → List D → Result (ImageManager D)
  unfolding initial_rows initial_row mark_compatible
  new_manager remotes names = do
    m ← initial_rows names remotes
    ok (record {
      n_labels = length remotes;
      n_duts = length names;
      dut_names = names;
      matrix = m;
      label_duts = λ i. [];
      allocate_log = [];
    })

-- How many of the rows below `n` have a 'Y' in column `j`.
pub count_planned : Matrix → ℕ → ℕ → ℕ
count_planned m j zero = 0
count_planned m j (suc n) = count_planned m j n + (if is_planned (m n j) then 1 else 0)

module _ (n_labels n_duts : ℕ) where
  -- The loop over the columns from `j` on. `next` is the recursive call for the next level.
  pub try_columns : (Matrix → Matrix × Bool) → (level limit cols j : ℕ) → Matrix → Matrix × Bool
  try_columns next level limit zero j m = (m, false)
  try_columns next level limit (suc cols) j m =
      let attempt = next (put m level j planned) in
      let retry = try_columns next level limit cols (j + 1) (put attempt.0 level j blank) in
      let skip = try_columns next level limit cols (j + 1) m in
      if is_blank (m level j) && ltb (count_planned m j n_labels) limit
      then (if attempt.1 then (attempt.0, true) else retry)
      else skip

  -- _compute_initial_allocation_internal, by recursion on the number of levels left.
  pub place : (levels level limit : ℕ) → Matrix → Matrix × Bool
  place zero level limit m = (m, true)
  place (suc levels) level limit m =
      try_columns (place levels (level + 1) limit) level limit n_duts 0 m

  -- `while n <= self.n_labels_`, for the given number of rounds.
  pub place_from : (rounds limit : ℕ) → Matrix → Matrix × Bool
  place_from zero limit m = (m, false)
  place_from (suc rounds) limit m =
      let attempt = place n_labels 0 limit m in
      let retry = place_from rounds (limit + 1) attempt.0 in
      if attempt.1 then (attempt.0, true) else retry

-- The two special cases: every cell that is no 'X' becomes a 'Y'.
pub plan_column : ℕ → ℕ → Matrix → Matrix
plan_column zero j m = m
plan_column (suc n) j m =
    let m' = plan_column n j m in if is_incompatible (m' n j) then m' else put m' n j planned

pub plan_row : ℕ → ℕ → Matrix → Matrix
plan_row zero i m = m
plan_row (suc n) i m =
    let m' = plan_row n i m in if is_incompatible (m' i n) then m' else put m' i n planned

module _ {ℓ} {D : Type ℓ} where
  -- The first limit that is tried.
  abbrev pub first_limit : ImageManager D → ℕ
  first_limit s = if leb s.n_labels s.n_duts then 1 else s.n_labels - s.n_duts + 1

  -- `none` is the `None` that the bare `return`s give.
  unfoldable pub compute_initial_allocation : ImageManager D → ImageManager D × Option Bool
  unfolding place_from place try_columns plan_column plan_row put count_planned
  compute_initial_allocation s =
      if s.n_duts == 1
      then (record s { matrix = plan_column s.n_labels 0 s.matrix }, none)
      else if s.n_labels == 1
      then (record s { matrix = plan_row s.n_duts 0 s.matrix }, none)
      else (let found =
            place_from s.n_labels s.n_duts (s.n_labels + 1 - first_limit s) (first_limit s)
              s.matrix in
          (record s { matrix = found.0 }, some found.1))

  -- `_record_allocate_log`, and the '_' in the matrix that goes with it.
  pub take_cell : ℕ → ℕ → ImageManager D → ImageManager D
  unfolding put
  take_cell i j s = record s {
    matrix = put s.matrix i j taken;
    allocate_log = s.allocate_log ++ (i, j) ∷ [];
    label_duts = λ i'. if i' == i then s.label_duts i ++ j ∷ [] else s.label_duts i';
  }

-- The variables of the loop in `allocate`; `row` is `can_i` and, where `found`, the label.
pub record Candidate : Type 0 where
  pub found : Bool
  pub row : ℕ
  pub reimage_number : ℕ
  pub pending : ℕ

abbrev pub no_candidate : Candidate
no_candidate = record { found = false; row = 999; reimage_number = 999; pending = 0 }

-- How the loop over the rows ends: by the `return` at a 'Y', or with a candidate.
pub data Scan : Type 0 where
  planned_row : ℕ → Scan
  best : Candidate → Scan

module _ (pending : Option (ℕ → ℕ)) (label_duts : ℕ → List ℕ) where
  -- The number of runs that wait for label `i`; 0 where there is no scheduler.
  abbrev pub pending_of : ℕ → ℕ
  pending_of i = elim pending [ none ↦ 0 | some f ↦ f i ]

  -- Optimisation (A): every run of the label is done.
  abbrev pub is_finished : ℕ → Bool
  is_finished i = elim pending [ none ↦ false | some f ↦ f i == 0 ]

  pub is_better : ℕ → Candidate → Bool
  is_better i c =
      not c.found
      || (ltb (length (label_duts i)) c.reimage_number
          || (length (label_duts i) == c.reimage_number && leb c.pending (pending_of i)))

  pub consider : ℕ → Candidate → Candidate
  unfolding is_better
  consider i c =
      if is_better i c
      then record {
        found = true;
        row = i;
        reimage_number = length (label_duts i);
        pending = pending_of i;
      }
      else c

  pub scan_rows : (rows i : ℕ) → (ℕ → Cell) → Candidate → Scan
  scan_rows zero i column c = best c
  scan_rows (suc rows) i column c =
      let skip = scan_rows rows (i + 1) column c in
      let weigh = scan_rows rows (i + 1) column (consider i c) in
      if is_finished i
      then skip
      else if is_planned (column i)
      then planned_row i
      else if is_blank (column i)
      then weigh
      else skip

module _ {ℓ} {D : Type ℓ} where
  pub finish_scan : ℕ → Scan → ImageManager D → ImageManager D × Option ℕ
  unfolding take_cell
  finish_scan j (planned_row i) s = (take_cell i j s, some i)
  finish_scan j (best c) s = if c.found then (take_cell c.row j s, some c.row) else (s, none)

  pub allocate_at : Option (ℕ → ℕ) → ℕ → ImageManager D → ImageManager D × Option ℕ
  unfolding finish_scan scan_rows consider
  allocate_at pending j s =
      finish_scan j (scan_rows pending s.label_duts s.n_labels 0 (λ i. s.matrix i j) no_candidate) s

  unfoldable pub allocate :
      ⦃e : Eq D⦄ → Option (ℕ → ℕ) → D → ImageManager D → Result (ImageManager D × Option ℕ)
  unfolding allocate_at
  allocate pending name s = do
    j ← some_or_raise key_error (ordinal s.dut_names name)
    ok (allocate_at pending j s)
