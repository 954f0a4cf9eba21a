-- ===== src/Bisect/SearchState/Pruning.antt =====
-- DoVerify, DoBinarySearch and DoSearch of binary_search_tool/binary_search_state.py. The exit code of a
-- test script depends on what has been switched. A loop of at most `iterations` or `prune_iterations`
-- rounds recurses on the rounds left. The saved state and the set files are left out.
use external_toolchain_utils.Bisect.Searcher.{
  set_status, BinarySearcher, new_searcher, set_sorted_list,
}
use external_toolchain_utils.Prelude.{
  ℕ, zero, suc, ◌+◌, ◌-◌, Bool, true, false, not, none, List, [], ◌∷◌, ◌++◌, length, get_elem?,
  take, drop, Result, ◌>>=◌, ◌>>◌, assert, some_or_raise, leb, ◌==◌, if◌then◌else◌, index_error, ok,
  Eq, nat_eq, contains,
}
use external_toolchain_utils.Bisect.SearchState.{
  switch_round, switch_to_bad, get_next_items, SearchState, switch_to_good, Side,
}

-- The options, and the two scripts; `test_setup` gives 0 where there is no setup script.
pub record Setting (K : Type 0) : Type 0 where
  pub verify : Bool
  pub prune : Bool
  pub iterations : ℕ
  pub prune_iterations : ℕ
  pub test_setup : List (Side × List K) → ℕ
  pub test_script : List (Side × List K) → ℕ

pub record BisectState (K : Type 0) : Type 0 where
  pub switching : SearchState K
  pub searcher : BinarySearcher K
  pub all_items : List K
  pub found_items : List K
  pub known_good : List K
  pub search_cycles : ℕ
  pub prune_cycles : ℕ
  pub resumed : Bool

module _ {K : Type 0} ⦃e : Eq K⦄ (setting : Setting K) where
  -- The test runs only where its setup succeeds.
  pub run_test : List (Side × List K) → ℕ
  run_test log =
      if setting.test_setup log == 0 then setting.test_script log else setting.test_setup log

  pub verify_items : BisectState K → Result (BisectState K)
  verify_items s =
      let good = switch_to_good s.all_items s.switching in
      let bad = switch_to_bad s.all_items good in
      do
        assert (setting.test_setup good.log == 0)
        assert (setting.test_script good.log == 0)
        assert (run_test bad.log == 1)
        ok (record s { switching = bad })

  -- DoVerify
  unfoldable pub do_verify : BisectState K → Result (BisectState K)
  do_verify s = if setting.verify then verify_items s else ok s

  -- The loop of DoBinarySearch.
  pub search_rounds : (rounds : ℕ) → BisectState K → Result (BisectState K × Bool)
  search_rounds zero s = ok (s, false)
  search_rounds (suc rounds) s = do
    (searcher, bad_items, good_items) ← get_next_items s.all_items s.known_good s.searcher
    let switching = switch_round good_items bad_items s.switching
    (searcher', terminated) ← set_status (run_test switching.log) none searcher
    let s' = record s {
      switching = switching;
      searcher = searcher';
      search_cycles = s.search_cycles + 1;
    }
    elim terminated [ true ↦ ok (s', true) | false ↦ search_rounds rounds s' ]

  unfoldable pub do_binary_search : BisectState K → Result (BisectState K × Bool)
  do_binary_search s =
      let cycles = if s.resumed then s.search_cycles else 0 in
      search_rounds (setting.iterations - cycles)
        (record s { search_cycles = cycles; resumed = false })

  -- PopulateItemsUsingList
  pub populate_items : List K → BisectState K → Result (BisectState K)
  populate_items items s = do
    searcher ← set_sorted_list items new_searcher
    ok (record s { all_items = items; searcher = searcher })

  -- An item found at an index, and whether the search goes on: the items below it are good, and it
  -- moves to the end of the items.
  pub prune_item : ℕ → K → BisectState K → Result (BisectState K × Bool)
  prune_item prune_index item s =
      let s' = record s {
        found_items = s.found_items ++ item ∷ [];
        known_good = s.known_good ++ take prune_index s.all_items;
      } in
      if contains s.found_items item
      then ok (s, false)
      else if not setting.prune
      then ok (s', false)
      else (do
        s'' ← populate_items (drop (prune_index + 1) s.all_items ++ item ∷ []) s'
        ok (s'', true))

  -- What follows a search that has terminated.
  unfoldable pub finish_search : BisectState K → Result (BisectState K × Bool)
  finish_search s = if s.searcher.current + 1 == length s.all_items then ok (s, false) else (do
    item ← some_or_raise index_error (get_elem? s.all_items s.searcher.current)
    prune_item s.searcher.current item s)

  -- The loop of DoSearch.
  pub prune_rounds : (rounds : ℕ) → BisectState K → Result (BisectState K)
  prune_rounds zero s = ok s
  prune_rounds (suc rounds) s = if leb (length s.all_items) 1 then ok s else do
    (s₁, terminated) ← do_binary_search s
    let s₂ = record s₁ { prune_cycles = s₁.prune_cycles + 1 }
    (s₃, more) ← if terminated then finish_search s₂ else ok (s₂, false)
    elim more [ true ↦ prune_rounds rounds s₃ | false ↦ ok s₃ ]

  unfoldable pub do_search : BisectState K → Result (BisectState K)
  do_search s = prune_rounds (setting.prune_iterations - s.prune_cycles) s
