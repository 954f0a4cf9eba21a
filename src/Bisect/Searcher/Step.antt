-- ===== src/Bisect/Searcher/Step.antt =====
-- What one call of GetNext and one call of SetStatus do to a searcher within its bounds.
use external_toolchain_utils.Prelude.{
  ℕ, ◌+◌, ◌-◌, ◌/◌, ◌≤◌, ◌<◌, ◌≡◌, refl, ◌≢◌, ◌⊎◌, inl, inr, Bool, true, false, ◌||◌, none, some,
  arith, length, get_elem?, get_elem?-lt, leb, ◌==◌, Bool-cases, ok, nat_eq, contains,
}
use external_toolchain_utils.Bisect.Searcher.{
  BinarySearcher, log_status, narrow, all_skipped, finish_status, set_status, get_next, report_next,
  get_next_flaky_binary,
}
use external_toolchain_utils.Bisect.Searcher.Flaky.{find_unskipped_lem}
use external_toolchain_utils.Bisect.Searcher.Invariant.{
  open_count, all_skipped_iff, open_count-pos, open_count-sub-lt, open_count-snoc-lt,
}

-- The bounds are indices of the list.
pub record IsValid {ℓ} {A : Type ℓ} (s : BinarySearcher A) : Type 0 where
  pub ordered : s.lo ≤ s.hi
  pub in_list : s.hi < length s.sorted_list

-- The number of indices that are left to test.
abbrev pub left {ℓ} : {A : Type ℓ} → BinarySearcher A → ℕ
left s = open_count s.skipped_indices s.lo (s.hi - s.lo)

-- An answer of the test script that fits a first bad index `k`.
abbrev pub Verdict : ℕ → ℕ → ℕ → Type 0
Verdict k i status = ((status ≡ 0) × (i < k) ⊎ (status ≡ 1) × (k ≤ i)) ⊎ (status ≡ 125)

-- Where a finished search stands: at one index, or among skipped ones.
abbrev pub IsOver {ℓ} : {A : Type ℓ} → BinarySearcher A → Type 0
IsOver s =
    (s.lo ≡ s.hi) × (s.current ≡ s.lo)
    ⊎ (s.lo < s.hi) × (all_skipped s.skipped_indices s.lo (s.hi - s.lo) ≡ true)

-- An index between the bounds that is not skipped: what GetNext chooses.
abbrev pub IsChoice {ℓ} : {A : Type ℓ} → BinarySearcher A → ℕ → Type 0
IsChoice s c = (s.lo ≤ c) × (c < s.hi) × (contains s.skipped_indices c ≡ false)

module _ {ℓ} {A : Type ℓ} (s : BinarySearcher A) (valid : IsValid s) where
  report_next_lem :
      (c : ℕ)
      → IsChoice s c
      → (revision : A) × (report_next (record s { current = c })
          ≡ ok (record s { current = c }, revision))
        × (get_elem? s.sorted_list c ≡ some revision)
  unfolding report_next
  report_next_lem c h =
      let (revision, e) = get_elem?-lt s.sorted_list c (omega arith) in
      (revision, rw (le→leb s.hi s.lo (omega arith), e), e)
    where
      le→leb : (a b : ℕ) → b < a → leb a b ≡ false
      le→leb a b h = ground arith

  -- Where the bounds of a searcher are valid and an index between them is not skipped, GetNext makes
  -- such an index the current one, that in the middle if it is not skipped, and returns the revision
  -- there.
  pub get_next_lem :
      0 < left s
      → (c : ℕ) × (revision : A) × (get_next s ≡ ok (record s { current = c }, revision))
        × IsChoice s c
        × (get_elem? s.sorted_list c ≡ some revision)
        × (contains s.skipped_indices ((s.hi + s.lo) / 2) ≡ false → c ≡ (s.hi + s.lo) / 2)
  unfolding get_next get_next_flaky_binary
  get_next_lem h =
      let (i, above, below, is_open) = open_count-pos s.skipped_indices s.lo (s.hi - s.lo) h in
      elim (Bool-cases (contains s.skipped_indices ((s.hi + s.lo) / 2))) [
        | inl skip ↦
            let (found, p, q₀, q₁, q₂) =
              find_unskipped_lem s.skipped_indices s.lo s.hi i above (omega arith) is_open in
            let (revision, e, at) = report_next_lem found (q₀, q₁, q₂) in
            (found, revision, rw (skip, p) e, (q₀, q₁, q₂), at, λ mid. absurd (cc))
        | inr mid ↦
            let (revision, e, at) =
              report_next_lem ((s.hi + s.lo) / 2) (omega arith, omega arith, mid) in
            (
              ((s.hi + s.lo) / 2),
              revision,
              rw mid e,
              (omega arith, omega arith, mid),
              at,
              λ mid. refl,
            )
      ]

  pub finish_status_lem :
      s.current < length s.sorted_list
      → (s.lo ≡ s.hi → s.current ≡ s.lo)
      → (done : Bool) × (finish_status s ≡ ok (s, done))
        × (done ≡ true → IsOver s)
        × (done ≡ false → 0 < left s)
  unfolding finish_status
  finish_status_lem h one = elim (Bool-cases (s.lo == s.hi)) [
    | inl same ↦
        let (revision, e) = get_elem?-lt s.sorted_list s.current h in
        (true, rw (same, e), (λ d. inl (ground arith, one (ground arith))), λ d. absurd (cc))
    | inr differ ↦ (
      all_skipped s.skipped_indices s.lo (s.hi - s.lo),
      rw differ,
      (λ d. inr (ground arith, d)),
      λ d. ground (arith, all_skipped_iff s.skipped_indices s.lo (s.hi - s.lo)),
    )
  ]

-- The object after SetStatus.
abbrev pub after {ℓ} : {A : Type ℓ} → A → ℕ → BinarySearcher A → BinarySearcher A
after revision status s = narrow status (log_status revision status none s)

module _ {ℓ} {A : Type ℓ} (s : BinarySearcher A) (revision : A) (status k : ℕ) where
  -- An answer that fits keeps the first bad index between the bounds, and leaves less to test.
  pub after_lem :
      IsValid s
      → s.lo ≤ k
      → k ≤ s.hi
      → IsChoice s s.current
      → Verdict k s.current status
      → IsValid (after revision status s)
        × ((after revision status s).lo ≤ k)
        × (k ≤ (after revision status s).hi)
        × (left (after revision status s) < left s)
  unfolding narrow log_status
  after_lem valid low high choice (inl (inl (e, below))) = rw e (
    omega arith,
    omega arith,
    omega arith,
    (open_count-sub-lt s.skipped_indices s.lo s.current s.hi choice.0 choice.1 choice.2).0,
  )
  after_lem valid low high choice (inl (inr (e, above))) = rw e (
    omega arith,
    omega arith,
    omega arith,
    (open_count-sub-lt s.skipped_indices s.lo s.current s.hi choice.0 choice.1 choice.2).1,
  )
  after_lem valid low high choice (inr e) = rw e (
    omega arith,
    omega arith,
    omega arith,
    open_count-snoc-lt s.skipped_indices s.current s.lo (s.hi - s.lo) choice.0 (omega arith)
        choice.2,
  )

  -- What SetStatus leaves alone, and where the new middle stands.
  pub after_frame :
      IsValid s
      → IsChoice s s.current
      → Verdict k s.current status
      → ((after revision status s).sorted_list ≡ s.sorted_list)
        × ((after revision status s).current < length s.sorted_list)
        × ((after revision status s).lo ≡ (after revision status s).hi
            → (after revision status s).current ≡ (after revision status s).lo)
  unfolding narrow log_status
  after_frame valid choice (inl (inl (e, below))) = rw e (refl, omega arith, λ h. omega arith)
  after_frame valid choice (inl (inr (e, above))) = rw e (refl, omega arith, λ h. omega arith)
  after_frame valid choice (inr e) = rw e (refl, omega arith, λ h. absurd (omega arith))

  pub set_status_lem :
      IsValid s
      → s.lo ≤ k
      → k ≤ s.hi
      → IsChoice s s.current
      → Verdict k s.current status
      → get_elem? s.sorted_list s.current ≡ some revision
      → (done : Bool) × (set_status status none s ≡ ok (after revision status s, done))
        × (done ≡ true → IsOver (after revision status s))
        × (done ≡ false → 0 < left (after revision status s))
  unfolding set_status
  set_status_lem valid low high choice verdict at =
      let (same, inside, one) = after_frame valid choice verdict in
      let (valid', _, _, _) = after_lem valid low high choice verdict in
      let (done, e, over, more) =
        finish_status_lem (after revision status s) valid' (rw same inside) one in
      (done, rw (at, known verdict) e, over, more)
    where
      known : Verdict k s.current status → (status == 0 || (status == 1 || status == 125)) ≡ true
      known v = ground arith

  -- An answer that is no skip halves the distance of the bounds, if the middle was tested.
  pub after_span :
      Verdict k s.current status
      → status ≢ 125
      → s.current ≡ (s.hi + s.lo) / 2
      → ((after revision status s).skipped_indices ≡ s.skipped_indices)
        × ((after revision status s).hi - (after revision status s).lo ≤ (s.hi - s.lo) / 2)
  unfolding narrow log_status
  after_span (inl (inl (e, below))) decided middle = rw e (refl, omega arith)
  after_span (inl (inr (e, above))) decided middle = rw e (refl, omega arith)
  after_span (inr e) decided middle = absurd (decided e)
