-- ===== src/Bisect/SearchState/Tests.antt =====
-- Three items, of which one is noted as good; only those not noted yet are switched.
use external_toolchain_utils.Bisect.SearchState.NextItems.{get_next_items_lem}
use external_toolchain_utils.Bisect.Searcher.Step.{IsChoice}
use external_toolchain_utils.Bisect.Searcher.Invariant.{open_count}
use external_toolchain_utils.Bisect.Searcher.{new_searcher, BinarySearcher}
use external_toolchain_utils.Bisect.SearchState.Switching.{
  switch_round-Tracks, switch_items-Tracks, last_side, Tracks,
}
use external_toolchain_utils.Prelude.{
  ℕ, ◌+◌, ◌≤◌, ◌<◌, ◌≡◌, ◌≢◌, true, false, some, List, [], ◌∷◌, ◌++◌, arith, get_elem?, take, ok,
  nat_eq, contains,
}
use external_toolchain_utils.Bisect.SearchState.{
  get_next_items, bad_side, switch_items, switch_round, SearchState, good_side,
}

abbrev one_good : SearchState ℕ
one_good = record {
  incremental = true;
  currently = elim [ good_side ↦ 1 ∷ [] | bad_side ↦ [] ];
  log = (good_side, 1 ∷ []) ∷ [];
}

one_good-Tracks : Tracks one_good
unfolding last_side contains
one_good-Tracks good_side k h = ground arith
one_good-Tracks bad_side k h = absurd (cc)

switch_items-Tracks_example :
    Tracks (switch_items good_side (1 ∷ 2 ∷ []) one_good)
    × ((k : ℕ)
        → contains (1 ∷ 2 ∷ []) k ≡ true
        → last_side k (switch_items good_side (1 ∷ 2 ∷ []) one_good).log ≡ some good_side)
    × ((k : ℕ)
        → contains (1 ∷ 2 ∷ []) k ≡ false
        → last_side k (switch_items good_side (1 ∷ 2 ∷ []) one_good).log ≡ last_side k one_good.log)
switch_items-Tracks_example = switch_items-Tracks good_side (1 ∷ 2 ∷ []) one_good one_good-Tracks

apart : (k : ℕ) → contains (1 ∷ 2 ∷ []) k ≡ true → contains (3 ∷ []) k ≡ false
unfolding contains
apart k h = ground arith

switch_round-Tracks_example :
    Tracks (switch_round (1 ∷ 2 ∷ []) (3 ∷ []) one_good)
    × ((k : ℕ)
        → contains (1 ∷ 2 ∷ []) k ≡ true
        → last_side k (switch_round (1 ∷ 2 ∷ []) (3 ∷ []) one_good).log ≡ some good_side)
    × ((k : ℕ)
        → contains (3 ∷ []) k ≡ true
        → last_side k (switch_round (1 ∷ 2 ∷ []) (3 ∷ []) one_good).log ≡ some bad_side)
switch_round-Tracks_example =
    switch_round-Tracks (1 ∷ 2 ∷ []) (3 ∷ []) one_good one_good-Tracks apart

abbrev three : BinarySearcher ℕ
three = record new_searcher { sorted_list = 1 ∷ 2 ∷ 3 ∷ []; hi = 2 }

get_next_items_lem_example :
    (c n : ℕ) × (border : ℕ) × (bad_items after : List ℕ) × (get_next_items
        (1 ∷ 2 ∷ 3 ∷ [])
        (9 ∷ [])
        three
      ≡ ok (record three { current = c }, bad_items, after ++ 9 ∷ []))
    × IsChoice three c
    × (get_elem? (1 ∷ 2 ∷ 3 ∷ []) c ≡ some border)
    × (n ≤ c)
    × (get_elem? (1 ∷ 2 ∷ 3 ∷ []) n ≡ some border)
    × ((m : ℕ) → m < n → get_elem? (1 ∷ 2 ∷ 3 ∷ []) m ≢ some border)
    × (bad_items ≡ take (n + 1) (1 ∷ 2 ∷ 3 ∷ []))
    × (bad_items ++ after ≡ 1 ∷ 2 ∷ 3 ∷ [])
unfolding open_count contains
get_next_items_lem_example = get_next_items_lem (9 ∷ []) three (omega arith) (omega arith)
