-- ===== src/Bisect/SearchState/NextItems.antt =====
-- GetNextItems of binary_search_tool/binary_search_state.py: how it splits the items of a search.
use external_toolchain_utils.Bisect.Searcher.{BinarySearcher, index_from}
use external_toolchain_utils.Bisect.SearchState.{get_next_items}
use mathlib.Core.Option.{some-injective}
use external_toolchain_utils.Prelude.{
  ℕ, zero, suc, ◌+◌, ◌≤◌, ◌<◌, ◌≡◌, refl, ap, ◌∙◌, ◌≢◌, inl, inr, false, some, List, [], ◌∷◌, ◌++◌,
  arith, get_elem?, take, drop, take-append-drop, Bool-cases, true-false, ok, Eq, nat_eq, ◌≟◌,
}
use external_toolchain_utils.Bisect.Searcher.Step.{get_next_lem, IsChoice, left, IsValid}

module _ {K : Type 0} ⦃e : Eq K⦄ where
  -- `index` finds the first place of an item.
  index_from_lem :
      (a : K) (i : ℕ) (xs : List K) (j : ℕ)
      → get_elem? xs j ≡ some a
      → (n : ℕ) × (index_from a i xs ≡ ok (i + n))
        × (n ≤ j)
        × (get_elem? xs n ≡ some a)
        × ((m : ℕ) → m < n → get_elem? xs m ≢ some a)
  unfolding index_from
  index_from_lem a i [] j h = absurd (cc)
  index_from_lem a i (x ∷ xs) zero h =
      let same : x ≡ a = cc in
      let here = (e.beq_iff x a).1 same in
      (
        0,
        rw here (ap ok (omega arith)),
        omega arith,
        ap (λ y. some y) same,
        λ m l. absurd (omega arith),
      )
  index_from_lem a i (x ∷ xs) (suc j) h = elim (Bool-cases (x ≟ a)) [
    | inl here ↦
        let same = (e.beq_iff x a).0 here in
        (
          0,
          rw here (ap ok (omega arith)),
          omega arith,
          ap (λ y. some y) same,
          λ m l. absurd (omega arith),
        )
    | inr other ↦
        let (n, run, le, at, earlier) = index_from_lem a (i + 1) xs j h in
        (
          suc n,
          rw (other, run) (ap ok (omega arith)),
          omega arith,
          at,
          λ m l. before n other earlier m l,
        )
  ]
    where
      before :
          (n : ℕ)
          → (x ≟ a) ≡ false
          → ((m : ℕ) → m < n → get_elem? xs m ≢ some a)
          → (m : ℕ) → m < suc n
          → get_elem? (x ∷ xs) m ≢ some a
      before n other earlier zero l =
          λ p. absurd (true-false ((e.beq_iff x a).1 (some-injective x a p)) other)
      before n other earlier (suc m) l = earlier m (omega arith)

  -- In a search whose bounds are valid and that has an index left to test, GetNextItems cuts the list
  -- of items at the revision that GetNext returns: the bad items are those up to it, where it stands
  -- first, and the good items are those after it and the known good ones.
  pub get_next_items_lem :
      (known_good : List K) (s : BinarySearcher K)
      → IsValid s
      → 0 < left s
      → (c n : ℕ) × (border : K) × (bad_items after : List K) × (get_next_items s.sorted_list
            known_good s
          ≡ ok (record s { current = c }, bad_items, after ++ known_good))
        × IsChoice s c
        × (get_elem? s.sorted_list c ≡ some border)
        × (n ≤ c)
        × (get_elem? s.sorted_list n ≡ some border)
        × ((m : ℕ) → m < n → get_elem? s.sorted_list m ≢ some border)
        × (bad_items ≡ take (n + 1) s.sorted_list)
        × (bad_items ++ after ≡ s.sorted_list)
  unfolding get_next_items
  get_next_items_lem known_good s valid more =
      let (c, border, run, choice, at, _) = get_next_lem s valid more in
      let (n, found, le, first, earlier) = index_from_lem border 0 s.sorted_list c at in
      let from_zero : 0 + n ≡ n = omega arith in
      let at_n : index_from border 0 s.sorted_list ≡ ok n = found ∙ ap (λ m. ok m) from_zero in
      (
        c,
        n,
        border,
        take (n + 1) s.sorted_list,
        drop (n + 1) s.sorted_list,
        rw (run, at_n),
        choice,
        at,
        le,
        first,
        earlier,
        refl,
        take-append-drop (n + 1) s.sorted_list,
      )
