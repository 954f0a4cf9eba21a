-- ===== src/Bisect/Searcher/Flaky.antt =====
-- The search for an index that is not skipped: the queue of GetNextFlakyBinary and the two pointers
-- of GetNextFlakyLinear.
use external_toolchain_utils.Prelude.{
  ℕ, zero, suc, ◌+◌, ◌-◌, ◌*◌, ◌/◌, ◌≤◌, ◌<◌, ◌≡◌, ◌⊎◌, inl, inr, true, false, List, [], ◌∷◌, ◌++◌,
  append_assoc, arith, length, length-append, Bool-cases, ok, nat_eq, contains,
}
use external_toolchain_utils.Bisect.Searcher.{find_unskipped}

abbrev Interval : Type 0
Interval = ℕ × ℕ × ℕ

-- The triple of an interval with its middle.
abbrev interval : ℕ → ℕ → Interval
interval a b = (a, (a + b) / 2, b)

abbrev Finds : ℕ → List ℕ → List Interval → Type 0
Finds fuel skipped q = (m : ℕ) × (find_unskipped fuel skipped q ≡ ok m)

-- 2 ^ d - 1
width : ℕ → ℕ
width zero = 0
width (suc d) = width d + width d + 1

-- The fuel that finds an index below an interval of size at most 2 ^ d with `p` intervals before it
-- in the queue and `r` behind it.
abbrev Suffices : ℕ → ℕ → ℕ → ℕ → Type 0
Suffices fuel d p r =
    2 * ((1 + width d) * p) + (1 + width d) * r + 2 * (1 + width d) ≤ fuel + p + r + 1

module _ (skipped : List ℕ) where
  find_unskipped-open :
      (fuel a m b : ℕ) (q : List Interval)
      → contains skipped m ≡ false
      → Finds (suc fuel) skipped ((a, m, b) ∷ q)
  unfolding find_unskipped
  find_unskipped-open fuel a m b q e = (m, rw e)

  find_unskipped-skip :
      (fuel a m b : ℕ) (q : List Interval)
      → contains skipped m ≡ true
      → Finds fuel skipped (q ++ (a, (a + m) / 2, m) ∷ (m, (m + b) / 2, b) ∷ [])
      → Finds (suc fuel) skipped ((a, m, b) ∷ q)
  unfolding find_unskipped
  find_unskipped-skip fuel a m b q e (found, h) = (found, rw e h)

  module _ (i : ℕ) (is_open : contains skipped i ≡ false) where
    differs : (m : ℕ) → contains skipped m ≡ true → m ≡ i → ⊥
    differs m e p = cc

    -- The halves of a queue's first interval, in the order in which they are appended.
    halves :
        (fuel d a b : ℕ) (post : List Interval)
        → ((d' : ℕ) (pre' post' : List Interval) (a' b' : ℕ)
            → a' ≤ i
            → i < b'
            → b' ≤ a' + 1 + width d'
            → Suffices fuel d' (length pre') (length post')
            → Finds fuel skipped (pre' ++ interval a' b' ∷ post'))
        → a ≤ i
        → i < b
        → b ≤ a + 1 + width d
        → Suffices (suc fuel) d 0 (length post)
        → contains skipped ((a + b) / 2) ≡ true
        → Finds fuel skipped (post ++ interval a ((a + b) / 2) ∷ interval ((a + b) / 2) b ∷ [])
    unfolding width
    halves fuel zero a b post rec ha hb hd hf e = absurd (differs ((a + b) / 2) e (omega arith))
    halves fuel (suc d) a b post rec ha hb hd hf e =
        elim (side ((a + b) / 2) i (differs ((a + b) / 2) e)) [
          | inl below ↦
              rec d post (interval ((a + b) / 2) b ∷ []) a ((a + b) / 2) ha below (omega arith)
                (omega arith)
          | inr above ↦
              rw
                (← append_assoc post (interval a ((a + b) / 2) ∷ [])
                  (interval ((a + b) / 2) b ∷ []))
                (rec d (post ++ interval a ((a + b) / 2) ∷ []) [] ((a + b) / 2) b (omega arith) hb
                  (omega arith)
                  (rw (length-append {0} post (interval a ((a + b) / 2) ∷ [])) (omega arith)))
        ]
      where
        side : (m i : ℕ) → (m ≡ i → ⊥) → (i < m) ⊎ (m < i)
        side m i ne = grind arith

    finds :
        (fuel d : ℕ) (pre post : List Interval) (a b : ℕ)
        → a ≤ i
        → i < b
        → b ≤ a + 1 + width d
        → Suffices fuel d (length pre) (length post)
        → Finds fuel skipped (pre ++ interval a b ∷ post)
    finds zero d pre post a b ha hb hd hf = absurd (omega arith)
    finds (suc fuel) d [] post a b ha hb hd hf =
        elim (Bool-cases (contains skipped ((a + b) / 2))) [
          | inl e ↦
              find_unskipped-skip fuel a ((a + b) / 2) b post e
                (halves fuel d a b post (finds fuel) ha hb hd hf e)
          | inr e ↦ find_unskipped-open fuel a ((a + b) / 2) b post e
        ]
    finds (suc fuel) d ((x, m, y) ∷ pre) post a b ha hb hd hf =
        let enough : Suffices (suc fuel) d (suc (length pre)) (length post) = hf in
        let two : List Interval = (x, (x + m) / 2, m) ∷ (m, (m + y) / 2, y) ∷ [] in
        elim (Bool-cases (contains skipped m)) [
          | inl e ↦ find_unskipped-skip fuel x m y (pre ++ interval a b ∷ post) e (
              rw (append_assoc pre (interval a b ∷ post) two) (
                finds fuel d pre (post ++ two) a b ha hb hd
                  (rw (length-append {0} post two) (omega arith))))
          | inr e ↦ find_unskipped-open fuel x m y (pre ++ interval a b ∷ post) e
        ]

-- Every positive size has a power of two that is neither too small nor too large.
enough_width : (n : ℕ) → 0 < n → (d : ℕ) × (n ≤ 1 + width d) × (width d ≤ 2 * (n - 1))
unfolding width
enough_width zero h = absurd (omega arith)
enough_width (suc zero) h = (0, omega arith, omega arith)
enough_width (suc (suc n)) h =
    let (d, low, high) = enough_width (suc n) (omega arith) in grow d low high (dec d)
  where
    dec : (d : ℕ) → (suc (suc n) ≤ 1 + width d) ⊎ (1 + width d < suc (suc n))
    dec d = grind arith

    grow :
        (d : ℕ)
        → suc n ≤ 1 + width d
        → width d ≤ 2 * (suc n - 1)
        → (suc (suc n) ≤ 1 + width d) ⊎ (1 + width d < suc (suc n))
        → (d : ℕ) × (suc (suc n) ≤ 1 + width d) × (width d ≤ 2 * (suc (suc n) - 1))
    grow d low high (inl fits) = (d, fits, omega arith)
    grow d low high (inr short) = (suc d, omega arith, omega arith)

-- If an index between the bounds is not skipped, the queue finds one with fuel four times the size.
pub find_unskipped_total :
    (skipped : List ℕ) (lo hi i : ℕ)
    → lo ≤ i
    → i < hi
    → contains skipped i ≡ false
    → Finds (4 * (hi - lo)) skipped ((lo, (hi + lo) / 2, hi) ∷ [])
find_unskipped_total skipped lo hi i h k e =
    let (d, low, high) = enough_width (hi - lo) (omega arith) in
    let middle : (hi + lo) / 2 ≡ (lo + hi) / 2 = omega arith in
    rw middle (finds skipped i e (4 * (hi - lo)) d [] [] lo hi h k (omega arith) (omega arith))

module _ (skipped : List ℕ) (lo hi : ℕ) where
  abbrev AllInside : List Interval → Type 0
  AllInside [] = Unit
  AllInside ((a, m, b) ∷ q) = ((lo ≤ a) × (a ≤ m) × (m < hi) × (m ≤ b) × (b ≤ hi)) × AllInside q

  AllInside-append : (q r : List Interval) → AllInside q → AllInside r → AllInside (q ++ r)
  AllInside-append [] r h k = k
  AllInside-append ((a, m, b) ∷ q) r h k = (h.0, AllInside-append q r h.1 k)

  -- What the queue finds lies between the bounds and is not skipped.
  find_unskipped-range :
      (fuel : ℕ) (q : List Interval) (found : ℕ)
      → AllInside q
      → find_unskipped fuel skipped q ≡ ok found
      → (lo ≤ found) × (found < hi) × (contains skipped found ≡ false)
  unfolding find_unskipped
  find_unskipped-range zero q found inside e = absurd (cc)
  find_unskipped-range (suc fuel) [] found inside e = absurd (cc)
  find_unskipped-range (suc fuel) ((a, m, b) ∷ q) found inside e =
      elim (Bool-cases (contains skipped m)) [
        | inl skip ↦
            find_unskipped-range fuel (q ++ (a, (a + m) / 2, m) ∷ (m, (m + b) / 2, b) ∷ []) found
              (AllInside-append q ((a, (a + m) / 2, m) ∷ (m, (m + b) / 2, b) ∷ []) inside.1
                (omega arith))
              (rw skip at e)
        | inr is_open ↦ ground arith
      ]

-- Between the bounds, an index that is not skipped is found with fuel four times the size.
pub find_unskipped_lem :
    (skipped : List ℕ) (lo hi i : ℕ)
    → lo ≤ i
    → i < hi
    → contains skipped i ≡ false
    → (found : ℕ) × (find_unskipped (4 * (hi - lo)) skipped ((lo, (hi + lo) / 2, hi) ∷ [])
        ≡ ok found)
      × (lo ≤ found)
      × (found < hi)
      × (contains skipped found ≡ false)
find_unskipped_lem skipped lo hi i h k e =
    let (found, p) = find_unskipped_total skipped lo hi i h k e in
    let (above, below, is_open) =
      find_unskipped-range skipped lo hi (4 * (hi - lo)) ((lo, (hi + lo) / 2, hi) ∷ []) found
        (omega arith) p in
    (found, p, above, below, is_open)
