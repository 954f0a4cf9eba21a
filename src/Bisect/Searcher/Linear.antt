-- ===== src/Bisect/Searcher/Linear.antt =====
-- The two pointers of GetNextFlakyLinear.
use external_toolchain_utils.Prelude.{
  ℕ, zero, suc, ◌+◌, ◌-◌, ◌≤◌, ◌<◌, ◌≡◌, ◌⊎◌, inl, inr, true, false, not, ◌&&◌, Option, none, some,
  List, arith, ltb, leb, Bool-cases, ok, nat_eq, contains,
}
use external_toolchain_utils.Bisect.Searcher.{find_linear}

abbrev pub IsAnswer : List ℕ → ℕ → ℕ → Option ℕ → Type 0
IsAnswer skipped lo hi (some i) = (lo ≤ i) × (i < hi) × (contains skipped i ≡ false)
IsAnswer skipped lo hi none = (j : ℕ) → lo ≤ j → j < hi → contains skipped j ≡ true

module _ (skipped : List ℕ) (lo hi current : ℕ) where
  -- All that is nearer than `k` is skipped.
  abbrev Seen : ℕ → Type 0
  Seen k = (j : ℕ) → lo ≤ j → j < hi → j < current + k → current < j + k → contains skipped j ≡ true

  nearest :
      (j k : ℕ)
      → j < current + (k + 1)
      → current < j + (k + 1)
      → ((j ≡ current + k) ⊎ (j + k ≡ current)) ⊎ ((j < current + k) × (current < j + k))
  nearest j k h h' = grind arith

  extend :
      (k : ℕ)
      → Seen k
      → (ltb (current + k) hi && not (contains skipped (current + k))) ≡ false
      → (leb (lo + k) current && not (contains skipped (current - k))) ≡ false
      → Seen (k + 1)
  extend k seen up down j h₀ h₁ h₂ h₃ = elim (nearest j k h₂ h₃) [
    | inl (inl e) ↦ rw e (let h : current + k < hi = omega arith in ground arith)
    | inl (inr e) ↦
        let e' : j ≡ current - k = omega arith in
        rw e' (let h : lo + k ≤ current = omega arith in ground arith)
    | inr p ↦ seen j h₀ h₁ p.0 p.1
  ]

  find_linear_lem :
      (fuel k : ℕ)
      → lo ≤ current
      → current < hi
      → current + hi + 2 ≤ fuel + k
      → k ≤ current + hi + 1
      → Seen k
      → (found : Option ℕ) × (find_linear fuel skipped lo hi current k ≡ ok found)
        × IsAnswer skipped lo hi found
  unfolding find_linear
  find_linear_lem zero k h₀ h₁ h₂ h₃ seen = absurd (omega arith)
  find_linear_lem (suc fuel) k h₀ h₁ h₂ h₃ seen =
      elim (Bool-cases (ltb (current + k) hi && not (contains skipped (current + k)))) [
        | inl up ↦ (some (current + k), rw up, ground arith)
        | inr up ↦
            elim (Bool-cases (leb (lo + k) current && not (contains skipped (current - k)))) [
              | inl down ↦ (some (current - k), rw (up, down), ground arith)
              | inr down ↦ elim (Bool-cases (ltb current (lo + k) && leb hi (current + k))) [
                | inl over ↦
                    (none, rw (up, down, over), λ j p q. seen j p q (ground arith) (ground arith))
                | inr more ↦
                    rw (up, down, more)
                      (find_linear_lem fuel (k + 1) h₀ h₁ (omega arith) (ground arith)
                        (extend k seen up down))
              ]
            ]
      ]

-- From a current index between the bounds, the two pointers of GetNextFlakyLinear stop, at an index
-- between the bounds that is not skipped, or without one if all of these are skipped.
pub find_linear-IsAnswer :
    (skipped : List ℕ) (lo hi current : ℕ)
    → lo ≤ current
    → current < hi
    → (found : Option ℕ) × (find_linear (current + hi + 2) skipped lo hi current 0 ≡ ok found)
      × IsAnswer skipped lo hi found
find_linear-IsAnswer skipped lo hi current h₀ h₁ =
    find_linear_lem skipped lo hi current (current + hi + 2) 0 h₀ h₁ (omega arith) (omega arith)
      (λ j p q r s. absurd (omega arith))
