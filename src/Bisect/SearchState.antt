-- ===== src/Bisect/SearchState.antt =====
-- binary_search_tool/binary_search_state.py: SwitchToGood and SwitchToBad, which tell scripts to switch
-- items and keep track of what has been switched. `log` holds the scripts run, the newest first, each
-- with the items given to it; a script that fails ends the program. A set is a list.
pub mod Switching
pub mod NextItems
pub mod Pruning
mod Tests
use external_toolchain_utils.Bisect.Searcher.{index_from, get_next, BinarySearcher}
use external_toolchain_utils.Prelude.{
  ◌+◌, Bool, true, false, List, [], ◌∷◌, ◌++◌, take, drop, Result, ◌>>=◌, ◌>>◌, if◌then◌else◌, ok,
  Eq, nat_eq, contains,
}

pub data Side : Type 0 where
  good_side bad_side : Side

abbrev pub is_side : Side → Side → Bool
is_side good_side good_side = true
is_side bad_side bad_side = true
is_side _ _ = false

-- `currently` holds `currently_good_items` and `currently_bad_items`.
pub record SearchState (K : Type 0) : Type 0 where
  pub incremental : Bool
  pub currently : Side → List K
  pub log : List (Side × List K)

abbrev pub new_state : {K : Type 0} → Bool → SearchState K
new_state incremental = record { incremental = incremental; currently = λ _. []; log = [] }

module _ {K : Type 0} ⦃e : Eq K⦄ where
  -- The items that are not among the first ones.
  unfoldable pub minus : List K → List K → List K
  minus known [] = []
  minus known (x ∷ xs) = let rest = minus known xs in if contains known x then rest else x ∷ rest

  -- From the call of RunSwitchScript on.
  unfoldable pub run_switch : Side → List K → SearchState K → SearchState K
  unfolding minus
  run_switch side [] s = s
  run_switch side (x ∷ xs) s = record s {
    currently = λ other.
        if is_side side other
        then s.currently side ++ x ∷ xs
        else minus (x ∷ xs) (s.currently other);
    log = (side, x ∷ xs) ∷ s.log;
  }

  unfoldable pub switch_items : Side → List K → SearchState K → SearchState K
  unfolding run_switch
  switch_items side items s =
      run_switch side (if s.incremental then minus (s.currently side) items else items) s

  abbrev pub switch_to_good : List K → SearchState K → SearchState K
  switch_to_good items s = switch_items good_side items s

  abbrev pub switch_to_bad : List K → SearchState K → SearchState K
  switch_to_bad items s = switch_items bad_side items s

  -- The calls in one iteration of DoBinarySearch.
  unfoldable pub switch_round : List K → List K → SearchState K → SearchState K
  switch_round good_items bad_items s = switch_to_bad bad_items (switch_to_good good_items s)

  -- GetNextItems, with the items of this search and the known good ones: the bad items and the good
  -- items of the next iteration.
  unfoldable pub get_next_items :
      List K → List K → BinarySearcher K → Result (BinarySearcher K × List K × List K)
  get_next_items all_items known_good searcher = do
    (searcher', border_item) ← get_next searcher
    index ← index_from border_item 0 all_items
    ok (searcher', take (index + 1) all_items, drop (index + 1) all_items ++ known_good)
