-- ===== src/Bisect/Searcher.antt =====
-- binary_search_tool/binary_search_perforce.py: the class BinarySearcher and the loop that drives it.
-- Positions are indices into `sorted_list`; a result is 0 (good), 1 (bad) or 125 (skip). The logger
-- is left out. `points` is the dictionary from index to BinarySearchPoint. A method returns the new
-- object, or the exception that ends the program.
pub mod Invariant
pub mod Flaky
pub mod Linear
pub mod Step
pub mod Search
mod Tests
use Prim.Native.String.{String}
use external_toolchain_utils.Prelude.{
  ℕ, zero, suc, ◌+◌, ◌-◌, ◌*◌, ◌/◌, Bool, true, false, not, ◌&&◌, ◌||◌, Option, none, some, List,
  [], ◌∷◌, ◌++◌, length, get_elem?, Result, ◌>>=◌, ◌>>◌, assert, some_or_raise, ltb, leb, ◌==◌,
  if◌then◌else◌, assertion_error, index_error, value_error, key_error, no_fuel, ok, err, Eq, nat_eq,
  ◌≟◌, contains,
}

-- -1 stands for a point that was not tested yet.
pub data Status : Type 0 where
  not_done : Status
  returned : ℕ → Status

pub record BinarySearchPoint {ℓ} (A : Type ℓ) : Type ℓ where
  pub revision : A
  pub status : Status
  pub tag : Option String

pub record BinarySearcher {ℓ} (A : Type ℓ) : Type ℓ where
  pub sorted_list : List A
  pub index_log : List ℕ
  pub status_log : List ℕ
  pub skipped_indices : List ℕ
  pub current : ℕ
  pub points : ℕ → Option (BinarySearchPoint A)
  pub lo : ℕ
  pub hi : ℕ

-- The constructor.
abbrev pub new_searcher {ℓ} : {A : Type ℓ} → BinarySearcher A
new_searcher = record {
  sorted_list = [];
  index_log = [];
  status_log = [];
  skipped_indices = [];
  current = 0;
  points = λ i. none;
  lo = 0;
  hi = 0;
}

-- `for index in range(lo, lo + n): if index not in skipped: return False`
unfoldable pub all_skipped : List ℕ → ℕ → ℕ → Bool
all_skipped skipped index zero = true
all_skipped skipped index (suc n) = contains skipped index && all_skipped skipped (index + 1) n

module _ {ℓ} {A : Type ℓ} where
  untested : Option A → Option (BinarySearchPoint A)
  untested none = none
  untested (some a) = some (record { revision = a; status = not_done; tag = some "Not yet done." })

  -- `status_log`, `skipped_indices` and `current` keep their values.
  unfoldable pub set_sorted_list : List A → BinarySearcher A → Result (BinarySearcher A)
  unfolding untested
  set_sorted_list xs s = do
    assert (ltb 0 (length xs))
    ok (record s {
      sorted_list = xs;
      index_log = [];
      hi = length xs - 1;
      lo = 0;
      points = λ i. untested (get_elem? xs i);
    })

  -- The dictionary update `self.points[i] = point`.
  set_point :
      ℕ
      → BinarySearchPoint A
      → (ℕ → Option (BinarySearchPoint A))
      → ℕ
      → Option (BinarySearchPoint A)
  set_point i point points j = if j == i then some point else points j

  -- The first half of SetStatus: the logs, the point and the skipped indices.
  unfoldable pub log_status : A → ℕ → Option String → BinarySearcher A → BinarySearcher A
  unfolding set_point
  log_status revision status tag s = record s {
    index_log = s.index_log ++ s.current ∷ [];
    status_log = s.status_log ++ status ∷ [];
    points =
        set_point s.current (record { revision = revision; status = returned status; tag = tag })
          s.points;
    skipped_indices =
        if status == 125 then s.skipped_indices ++ s.current ∷ [] else s.skipped_indices;
  }

  -- The new bounds, and the middle between them.
  unfoldable pub narrow : ℕ → BinarySearcher A → BinarySearcher A
  narrow status s =
      if status == 0
      then record s { lo = s.current + 1; current = (s.current + 1 + s.hi) / 2 }
      else if status == 1
      then record s { hi = s.current; current = (s.lo + s.current) / 2 }
      else s

  -- The last part of SetStatus: is the search over?
  unfoldable pub finish_status : BinarySearcher A → Result (BinarySearcher A × Bool)
  finish_status s =
      if s.lo == s.hi
      then (do
        revision ← some_or_raise index_error (get_elem? s.sorted_list s.current)
        ok (s, true))
      else ok (s, all_skipped s.skipped_indices s.lo (s.hi - s.lo))

  -- The messages read `sorted_list[current]`, and raise where it is out of range.
  unfoldable pub set_status :
      ℕ → Option String → BinarySearcher A → Result (BinarySearcher A × Bool)
  set_status status tag s = do
    revision ← some_or_raise index_error (get_elem? s.sorted_list s.current)
    assert (status == 0 || (status == 1 || status == 125))
    finish_status (narrow status (log_status revision status tag s))

-- The `while` loop of GetNextFlakyBinary over its queue, on fuel.
unfoldable pub find_unskipped : ℕ → List ℕ → List (ℕ × ℕ × ℕ) → Result ℕ
find_unskipped zero skipped q = err no_fuel
find_unskipped (suc fuel) skipped [] = err assertion_error
find_unskipped (suc fuel) skipped ((a, m, b) ∷ q) =
    let rest = find_unskipped fuel skipped (q ++ (a, (a + m) / 2, m) ∷ (m, (m + b) / 2, b) ∷ []) in
    if contains skipped m then rest else ok m

-- The `while True` loop of GetNextFlakyLinear after `k` rounds: `current_hi` is `current + k` and
-- `current_lo` is `current - k`, which may be negative. `none` is its `break` with nothing found.
unfoldable pub find_linear : ℕ → List ℕ → (lo hi current k : ℕ) → Result (Option ℕ)
find_linear zero skipped lo hi current k = err no_fuel
find_linear (suc fuel) skipped lo hi current k =
    let rest = find_linear fuel skipped lo hi current (k + 1) in
    if ltb (current + k) hi && not (contains skipped (current + k))
    then ok (some (current + k))
    else if leb (lo + k) current && not (contains skipped (current - k))
    then ok (some (current - k))
    else if ltb current (lo + k) && leb hi (current + k)
    then ok none
    else rest

module _ {ℓ} {A : Type ℓ} where
  unfoldable pub get_next_flaky_binary : BinarySearcher A → Result (BinarySearcher A)
  get_next_flaky_binary s = do
    found ← find_unskipped (4 * (s.hi - s.lo)) s.skipped_indices ((s.lo, s.current, s.hi) ∷ [])
    ok (record s { current = found })

  unfoldable pub get_next_flaky_linear : BinarySearcher A → Result (BinarySearcher A)
  get_next_flaky_linear s = do
    found ← find_linear (s.current + s.hi + 2) s.skipped_indices s.lo s.hi s.current 0
    ok (elim found [ none ↦ s | some i ↦ record s { current = i } ])

  -- The estimate in the message takes the logarithm of `hi - lo`, which raises unless that is
  -- positive.
  unfoldable pub report_next : BinarySearcher A → Result (BinarySearcher A × A)
  report_next s = if leb s.hi s.lo then err value_error else (do
    revision ← some_or_raise index_error (get_elem? s.sorted_list s.current)
    ok (s, revision))

  unfoldable pub get_next : BinarySearcher A → Result (BinarySearcher A × A)
  get_next s =
      let s' = record s { current = (s.hi + s.lo) / 2 } in
      (if contains s'.skipped_indices s'.current then get_next_flaky_binary s' else ok s')
      >>= report_next

  -- `sorted_list.index(revision)`, counted from `i`.
  unfoldable pub index_from : ⦃e : Eq A⦄ → A → ℕ → List A → Result ℕ
  index_from a i [] = err value_error
  index_from a i (x ∷ xs) = if x ≟ a then ok i else index_from a (i + 1) xs

  unfoldable pub set_lo_revision : ⦃e : Eq A⦄ → A → BinarySearcher A → Result (BinarySearcher A)
  set_lo_revision revision s = do i ← index_from revision 0 s.sorted_list; ok (record s { lo = i })

  unfoldable pub set_hi_revision : ⦃e : Eq A⦄ → A → BinarySearcher A → Result (BinarySearcher A)
  set_hi_revision revision s = do i ← index_from revision 0 s.sorted_list; ok (record s { hi = i })

  points_from : BinarySearcher A → ℕ → ℕ → Result (List (Status × ℕ × A))
  points_from s i zero = ok []
  points_from s i (suc n) = do
    point ← some_or_raise key_error (s.points i)
    rest ← points_from s (i + 1) n
    ok ((point.status, i, point.revision) ∷ rest)

  -- One line of the report for each index.
  unfoldable pub get_all_points : BinarySearcher A → Result (List (Status × ℕ × A))
  unfolding points_from
  get_all_points s = points_from s 0 (length s.sorted_list)

  -- The main loop of the script: `test n a` is the status of the test script at revision `a` when
  -- `n` more tries are left.
  unfoldable pub run_search : (ℕ → A → ℕ) → ℕ → BinarySearcher A → Result (BinarySearcher A × Bool)
  run_search test zero s = ok (s, false)
  run_search test (suc num_tries) s = do
    (s₁, revision) ← get_next s
    (s₂, terminated) ← set_status (test num_tries revision) none s₁
    elim terminated [ true ↦ ok (s₂, true) | false ↦ run_search test num_tries s₂ ]
