-- ===== src/Bisect/Searcher/Search.antt =====
-- The main loop of binary_search_tool/binary_search_perforce.py as a whole, for a list of revisions that
-- turns bad at one index.
use external_toolchain_utils.Bisect.Searcher.Invariant.{open_count-nil}
use external_toolchain_utils.Prelude.{
  ℕ, zero, suc, ◌-◌, ◌≤◌, ◌<◌, ◌≡◌, refl, ◌∙◌, ◌≢◌, Bool, true, false, none, some, List, [], arith,
  length, get_elem?, ◌>>=◌, lt→ltb, ok, nat_eq,
}
use external_toolchain_utils.Bisect.Searcher.{
  untested, BinarySearcher, new_searcher, set_sorted_list, set_status, get_next, run_search,
}
use mathlib.Core.Path.{subst}
use external_toolchain_utils.Bisect.Searcher.Step.{
  IsValid, left, Verdict, IsOver, after, get_next_lem, after_lem, after_frame, set_status_lem,
}

module _ {ℓ} {A : Type ℓ} (test : ℕ → A → ℕ) (xs : List A) (k : ℕ) where
  -- The script answers as if the revisions from index `k` on were bad, or asks to skip.
  abbrev pub Answers : Type ℓ
  Answers = (n i : ℕ) (a : A) → get_elem? xs i ≡ some a → Verdict k i (test n a)

  -- The script never asks to skip.
  abbrev pub Decides : Type ℓ
  Decides = (n : ℕ) (a : A) → test n a ≢ 125

  -- The first bad revision is between the bounds of a search that is over.
  pub record IsFound (s : BinarySearcher A) : Type ℓ where
    pub same : s.sorted_list ≡ xs
    pub valid : IsValid s
    pub low : s.lo ≤ k
    pub high : k ≤ s.hi
    pub over : IsOver s

  pub record IsSearching (s : BinarySearcher A) : Type ℓ where
    pub same : s.sorted_list ≡ xs
    pub valid : IsValid s
    pub low : s.lo ≤ k
    pub high : k ≤ s.hi
    pub more : 0 < left s

  -- One round: GetNext, the test, SetStatus.
  round :
      (n : ℕ) (s : BinarySearcher A)
      → Answers
      → IsSearching s
      → (c : ℕ) × (revision : A) × (done : Bool) × (get_next s
          ≡ ok (record s { current = c }, revision))
        × (set_status (test n revision) none (record s { current = c })
            ≡ ok (after revision (test n revision) (record s { current = c }), done))
        × (left (after revision (test n revision) (record s { current = c })) < left s)
        × (done ≡ true → IsFound (after revision (test n revision) (record s { current = c })))
        × (done ≡ false → IsSearching (after revision (test n revision) (record s { current = c })))
  round n s answers h =
      let (c, revision, e, choice, at, _) = get_next_lem s h.valid h.more in
      let s₁ : BinarySearcher A = record s { current = c } in
      let valid₁ : IsValid s₁ = record { ordered = h.valid.ordered; in_list = h.valid.in_list } in
      let verdict = answers n c revision (subst (λ l. get_elem? l c ≡ some revision) h.same at) in
      let (done, e₁, over, more) =
        set_status_lem s₁ revision (test n revision) k valid₁ h.low h.high choice verdict at in
      let (valid₂, low, high, less) =
        after_lem s₁ revision (test n revision) k valid₁ h.low h.high choice verdict in
      let (same, _, _) = after_frame s₁ revision (test n revision) k valid₁ choice verdict in
      (
        c,
        revision,
        done,
        e,
        e₁,
        less,
        (λ d. record {
          same = same ∙ h.same;
          valid = valid₂;
          low = low;
          high = high;
          over = over d;
        }),
        λ d. record { same = same ∙ h.same; valid = valid₂; low = low; high = high; more = more d },
      )

  search_ends :
      (num_tries : ℕ) (s : BinarySearcher A)
      → Answers
      → IsSearching s
      → left s ≤ num_tries
      → (s' : BinarySearcher A) × (run_search test num_tries s ≡ ok (s', true)) × IsFound s'
  unfolding run_search
  search_ends zero s answers h enough = absurd (let m = h.more in omega arith)
  search_ends (suc n) s answers h enough =
      let (c, revision, done, e, e₁, less, found, searching) = round n s answers h in
      go done e e₁ found (λ d. search_ends n _ answers (searching d) (omega arith))
    where
      go :
          {c : ℕ} {revision : A} {s₂ : BinarySearcher A} (done : Bool)
          → get_next s ≡ ok (record s { current = c }, revision)
          → set_status (test n revision) none (record s { current = c }) ≡ ok (s₂, done)
          → (done ≡ true → IsFound s₂)
          → (done ≡ false
              → (s' : BinarySearcher A) × (run_search test n s₂ ≡ ok (s', true)) × IsFound s')
          → (s' : BinarySearcher A) × (run_search test (suc n) s ≡ ok (s', true)) × IsFound s'
      go {s₂ = s₂} true e e₁ found rest = (s₂, rw (e, e₁), found refl)
      go false e e₁ found rest = let (s', p, q) = rest refl in (s', rw (e, e₁) p, q)

  started : BinarySearcher A
  started = record new_searcher {
    sorted_list = xs;
    hi = length xs - 1;
    points = λ i. untested (get_elem? xs i);
  }

  -- The searcher after SetSortedList.
  start :
      2 ≤ length xs
      → k < length xs
      → (s : BinarySearcher A) × (set_sorted_list xs new_searcher ≡ ok s)
        × IsSearching s
        × (s.skipped_indices ≡ [])
        × (s.hi - s.lo ≡ length xs - 1)
  unfolding set_sorted_list started
  start two inside = (
    started,
    rw (lt→ltb 0 (length xs) (omega arith)),
    record {
      same = refl;
      valid = record { ordered = omega arith; in_list = omega arith };
      low = omega arith;
      high = omega arith;
      more = rw (open_count-nil 0 (length xs - 1 - 0)) (omega arith);
    },
    refl,
    omega arith,
  )

  -- For a list of at least two revisions of which those from index `k` on are bad, and a test script
  -- that answers so or asks to skip a revision, the search ends within as many tries as there are
  -- revisions. It ends with the index `k` between its bounds, and these have met, with the current
  -- index there, or everything from the lower bound up to the upper one was skipped.
  pub search_finds :
      2 ≤ length xs
      → k < length xs
      → Answers
      → (s' : BinarySearcher A) × ((set_sorted_list xs new_searcher >>= run_search test (length xs))
          ≡ ok (s', true))
        × IsFound s'
  search_finds two inside answers =
      let (s, e, searching, none_skipped, span) = start two inside in
      let enough : left s ≤ length xs =
        rw none_skipped (rw (open_count-nil s.lo (s.hi - s.lo)) (omega arith)) in
      let (s', p, found) = search_ends (length xs) s answers searching enough in (s', rw e p, found)
