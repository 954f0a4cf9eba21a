-- ===== src/Automation/Machines/Acquire.antt =====
-- One machine acquired: which one it is, and what that changes.
use external_toolchain_utils.Prelude.Texts.{string_eq}
use external_toolchain_utils.Automation.Machines.{
  is_match, uses_at, MachineSpecification, min_by_uses, choose, select, release, Pool, Machine,
  acquire,
}
use Prim.Native.String.{String}
use mathlib.Core.Option.{some-injective}
use external_toolchain_utils.Prelude.{
  ℕ, suc, ◌+◌, ◌-◌, ◌≤◌, ◌≡◌, inl, inr, Bool, true, false, ◌&&◌, none, some, List, [], ◌∷◌, arith,
  get_elem?, ◌>>=◌, ltb, if◌then◌else◌, Bool-cases, ok, nat_eq, contains,
}

-- Releasing a machine that was just acquired and was not locked gives it back as it was, but for one
-- case: an exclusive acquisition of a machine that is in use leaves it locked.
pub release-acquire :
    (exclusively : Bool) (m : Machine)
    → m.locked ≡ false
    → (acquire exclusively m >>= release) ≡ ok (record m { locked = exclusively && ltb 0 m.uses })
unfolding acquire release
release-acquire exclusively m h = ground arith

abbrev pub All {ℓ κ} : {A : Type ℓ} → (A → Type κ) → List A → Type κ
All P [] = Unit
All P (x ∷ xs) = P x × All P xs

All-map {ℓ κ μ} :
    {A : Type ℓ} (P : A → Type κ) (Q : A → Type μ)
    → ((a : A) → P a → Q a)
    → (xs : List A) → All P xs
    → All Q xs
All-map P Q f [] h = tt
All-map P Q f (x ∷ xs) h = (f x h.0, All-map P Q f xs h.1)

-- The machine at an index passes a test.
abbrev pub PassesAt : (Machine → Bool) → Pool → ℕ → Type 0
PassesAt test pool i = (m : Machine) × (get_elem? pool i ≡ some m) × (test m ≡ true)

module _ (fnmatch : String → String → Bool) where
  select-All :
      (test : Machine → Bool) (i : ℕ) (pool : Pool)
      → All (λ j. (i ≤ j) × PassesAt test pool (j - i)) (select fnmatch test i pool)
  unfolding select
  select-All test i [] = tt
  select-All test i (m ∷ pool) = elim (Bool-cases (test m)) [
    | inl p ↦ rw p ((omega arith, (m, (rw (zero_at i)), p)), shifted (select-All test (i + 1) pool))
    | inr p ↦ rw p (shifted (select-All test (i + 1) pool))
  ]
    where
      zero_at : (i : ℕ) → i - i ≡ 0
      zero_at i = omega arith

      shift :
          (j : ℕ)
          → (i + 1 ≤ j) × PassesAt test pool (j - (i + 1))
          → (i ≤ j) × PassesAt test (m ∷ pool) (j - i)
      shift j (h, (x, e, p)) =
          let up : j - i ≡ suc (j - (i + 1)) = omega arith in (omega arith, (x, rw up e, p))

      shifted :
          All
            (λ j. (i + 1 ≤ j) × PassesAt test pool (j - (i + 1)))
            (select fnmatch test (i + 1) pool)
          → All (λ j. (i ≤ j) × PassesAt test (m ∷ pool) (j - i)) (select fnmatch test (i + 1) pool)
      shifted =
          All-map (λ j. (i + 1 ≤ j) × PassesAt test pool (j - (i + 1)))
            (λ j. (i ≤ j) × PassesAt test (m ∷ pool) (j - i)) shift
            (select fnmatch test (i + 1) pool)

  min_by_uses-All :
      (P : ℕ → Type 0) (pool : Pool) (i : ℕ) (is : List ℕ)
      → P i
      → All P is
      → P (min_by_uses pool i is)
  unfolding min_by_uses
  min_by_uses-All P pool i [] h k = h
  min_by_uses-All P pool i (j ∷ js) h k =
      min_by_uses-All P pool (if ltb (uses_at pool j) (uses_at pool i) then j else i) js
        (pick (ltb (uses_at pool j) (uses_at pool i))) k.1
    where
      pick : (b : Bool) → P (if b then j else i)
      pick true = k.0
      pick false = h

  -- The machine that is chosen fits the specification.
  pub choose-IsMatch :
      (spec : MachineSpecification) (pool : Pool) (i : ℕ)
      → choose fnmatch spec pool ≡ some i
      → PassesAt (is_match fnmatch spec) pool i
  unfolding choose
  choose-IsMatch spec pool i e =
      go (select fnmatch (is_match fnmatch spec) 0 pool)
        (select fnmatch
          (λ m. is_match fnmatch spec m && contains spec.preferred_machines m.hostname) 0 pool)
        (select-All (is_match fnmatch spec) 0 pool)
        (select-All (λ m. is_match fnmatch spec m && contains spec.preferred_machines m.hostname) 0
          pool)
        e
    where
      both : (a b : Bool) → (a && b) ≡ true → a ≡ true
      both a b h = ground arith

      here :
          (test : Machine → Bool) (j : ℕ)
          → (0 ≤ j) × PassesAt test pool (j - 0)
          → PassesAt test pool j
      here test j (h, (m, e, p)) = let z : j - 0 ≡ j = omega arith in (m, rw z at e, p)

      go :
          (is js : List ℕ)
          → All (λ j. (0 ≤ j) × PassesAt (is_match fnmatch spec) pool (j - 0)) is
          → All
              (λ j.
                (0 ≤ j)
                × PassesAt
                    (λ m. is_match fnmatch spec m && contains spec.preferred_machines m.hostname)
                    pool
                    (j - 0))
              js
          → (elim is [
            | [] ↦ none
            | i ∷ is ↦ elim js [
              | [] ↦ some (min_by_uses pool i is)
              | j ∷ js ↦ some (min_by_uses pool j js)
            ]
          ])
            ≡ some i
          → PassesAt (is_match fnmatch spec) pool i
      go [] js h k e = absurd (cc)
      go (a ∷ is) [] h k e =
          let found =
            min_by_uses-All (PassesAt (is_match fnmatch spec) pool) pool a is
              (here (is_match fnmatch spec) a h.0)
              (All-map (λ j. (0 ≤ j) × PassesAt (is_match fnmatch spec) pool (j - 0))
                (PassesAt (is_match fnmatch spec) pool) (here (is_match fnmatch spec)) is h.1) in
          rw (some-injective _ _ e) at found
      go (a ∷ is) (b ∷ js) h k e =
          let test : Machine → Bool =
            λ m. is_match fnmatch spec m && contains spec.preferred_machines m.hostname in
          let (m, at, p) = min_by_uses-All (PassesAt test pool) pool b js (here test b k.0) (
            All-map (λ j. (0 ≤ j) × PassesAt test pool (j - 0)) (PassesAt test pool) (here test) js
              k.1) in
          (
            m,
            rw (some-injective _ _ e) at at,
            both (is_match fnmatch spec m) (contains spec.preferred_machines m.hostname) p,
          )
