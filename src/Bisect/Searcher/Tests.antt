-- ===== src/Bisect/Searcher/Tests.antt =====
-- Small searches: one revision of four is skipped, and then none.
use external_toolchain_utils.Bisect.Searcher.Step.{get_next_lem, IsChoice}
use external_toolchain_utils.Bisect.Searcher.Linear.{find_linear-IsAnswer, IsAnswer}
use external_toolchain_utils.Bisect.Searcher.Invariant.{open_count}
use external_toolchain_utils.Bisect.Searcher.Search.{search_finds, IsFound, Answers}
use external_toolchain_utils.Bisect.Searcher.{
  run_search, get_next, set_sorted_list, new_searcher, BinarySearcher, find_linear, find_unskipped,
}
use external_toolchain_utils.Prelude.{
  ℕ, zero, suc, ◌≡◌, refl, true, false, Option, some, List, [], ◌∷◌, arith, get_elem?, ◌>>=◌, ltb,
  ◌==◌, if◌then◌else◌, ok, nat_eq, contains,
}

abbrev revisions : List ℕ
revisions = 10 ∷ 20 ∷ 30 ∷ 40 ∷ []

-- 30 is the first bad revision, and 20 cannot be tested.
abbrev flaky : ℕ → ℕ → ℕ
flaky n a = if a == 20 then 125 else if ltb a 30 then 0 else 1

abbrev steady : ℕ → ℕ → ℕ
steady n a = if ltb a 30 then 0 else 1

flaky-Answers : Answers flaky revisions 2
flaky-Answers n zero a e = ground arith
flaky-Answers n (suc zero) a e = ground arith
flaky-Answers n (suc (suc zero)) a e = ground arith
flaky-Answers n (suc (suc (suc zero))) a e = ground arith
flaky-Answers n (suc (suc (suc (suc i)))) a e = absurd (cc)

search_finds_example :
    (s' : BinarySearcher ℕ) × ((set_sorted_list revisions new_searcher >>= run_search flaky 4)
      ≡ ok (s', true))
    × IsFound flaky revisions 2 s'
search_finds_example = search_finds flaky revisions 2 (omega arith) (omega arith) flaky-Answers

abbrev skips : List ℕ
skips = 1 ∷ 0 ∷ []

abbrev with_skips : BinarySearcher ℕ
with_skips = record new_searcher { sorted_list = revisions; hi = 3; skipped_indices = skips }

get_next_lem_example :
    (c : ℕ) × (revision : ℕ) × (get_next with_skips
      ≡ ok (record with_skips { current = c }, revision))
    × IsChoice with_skips c
    × (get_elem? revisions c ≡ some revision)
    × (contains skips 1 ≡ false → c ≡ 1)
unfolding open_count contains
get_next_lem_example = get_next_lem with_skips (omega arith) (omega arith)

find_linear-IsAnswer_example :
    (found : Option ℕ) × (find_linear 6 skips 0 3 1 0 ≡ ok found) × IsAnswer skips 0 3 found
find_linear-IsAnswer_example = find_linear-IsAnswer skips 0 3 1 (omega arith) (omega arith)

linear_runs : find_linear 6 skips 0 3 1 0 ≡ ok (some 2)
unfolding find_linear contains
linear_runs = refl

queue_runs : find_unskipped 12 skips ((0, 1, 3) ∷ []) ≡ ok 2
unfolding find_unskipped contains
queue_runs = refl
