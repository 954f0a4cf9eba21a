-- ===== src/Bisect/Searcher/Invariant.antt =====
-- The bounds of a searcher, what one call of GetNext and one of SetStatus do to them, and the number
-- of indices that are left to test.
use external_toolchain_utils.Prelude.{
  ℕ, zero, suc, ◌+◌, ◌-◌, ◌≤◌, ◌<◌, ◌≡◌, refl, ◌∙◌, ◌↔◌, inl, inr, true, false, List, [], ◌∷◌, ◌++◌,
  arith, ◌==◌, if◌then◌else◌, Bool-cases, nat_eq, contains,
}
use external_toolchain_utils.Bisect.Searcher.{all_skipped}
use native.Mathlib.Nat.{zero-add, add-zero}
use external_toolchain_utils.Prelude.Equality.{contains-snoc, contains-nil}

-- The indices from `i` to `i + n` that are not skipped, counted.
unfoldable pub open_count : List ℕ → ℕ → ℕ → ℕ
open_count skipped i zero = 0
open_count skipped i (suc n) = (if contains skipped i then 0 else 1) + open_count skipped (i + 1) n

pub all_skipped_iff :
    (skipped : List ℕ) (i n : ℕ) → (all_skipped skipped i n ≡ true) ↔ (open_count skipped i n ≡ 0)
unfolding all_skipped open_count
all_skipped_iff skipped i zero = ((λ e. refl), (λ e. refl))
all_skipped_iff skipped i (suc n) = ground (arith, all_skipped_iff skipped (i + 1) n)

pub open_count-pos :
    (skipped : List ℕ) (i n : ℕ)
    → 0 < open_count skipped i n
    → (j : ℕ) × (i ≤ j) × (j < i + n) × (contains skipped j ≡ false)
unfolding open_count
open_count-pos skipped i zero h = absurd (omega arith)
open_count-pos skipped i (suc n) h = elim (Bool-cases (contains skipped i)) [
  | inl e ↦
      let (j, p, q, r) = open_count-pos skipped (i + 1) n (ground arith) in
      (j, omega arith, omega arith, r)
  | inr e ↦ (i, omega arith, omega arith, e)
]

open_count-zero : (skipped : List ℕ) (i : ℕ) → open_count skipped i 0 ≡ 0
unfolding open_count
open_count-zero skipped i = refl

open_count-suc :
    (skipped : List ℕ) (i n : ℕ)
    → open_count skipped i (suc n)
      ≡ (if contains skipped i then 0 else 1) + open_count skipped (i + 1) n
unfolding open_count
open_count-suc skipped i n = refl

open_count-add :
    (skipped : List ℕ) (i m n : ℕ)
    → open_count skipped i (m + n) ≡ open_count skipped i m + open_count skipped (i + m) n
open_count-add skipped i zero n =
    rw (zero-add n, add-zero i) (omega (arith, open_count-zero skipped i))
open_count-add skipped i (suc m) n =
    let e : suc m + n ≡ suc (m + n) = omega arith in
    let e' : i + suc m ≡ (i + 1) + m = omega arith in
    rw (e, e')
      (omega (
        arith,
        open_count-suc skipped i (m + n),
        open_count-suc skipped i m,
        open_count-add skipped (i + 1) m n,
      ))

pub open_count-sub-lt :
    (skipped : List ℕ) (lo c hi : ℕ)
    → lo ≤ c
    → c < hi
    → contains skipped c ≡ false
    → (open_count skipped (c + 1) (hi - (c + 1)) < open_count skipped lo (hi - lo))
      × (open_count skipped lo (c - lo) < open_count skipped lo (hi - lo))
open_count-sub-lt skipped lo c hi h k e =
    let size : hi - lo ≡ (c - lo) + suc (hi - (c + 1)) = omega arith in
    let here : lo + (c - lo) ≡ c = omega arith in
    let split = open_count-add skipped lo (c - lo) (suc (hi - (c + 1))) in
    let all : open_count skipped lo (hi - lo)
        ≡ open_count skipped lo (c - lo) + open_count skipped c (suc (hi - (c + 1))) =
      rw (← size, here) at split in
    (omega (arith, all, first c (hi - (c + 1)) e), omega (arith, all, first c (hi - (c + 1)) e))
  where
    first :
        (c n : ℕ)
        → contains skipped c ≡ false
        → open_count skipped c (suc n) ≡ suc (open_count skipped (c + 1) n)
    first c n e = open_count-suc skipped c n ∙ rw e (omega arith)

open_count-snoc-le :
    (skipped : List ℕ) (c i n : ℕ) → open_count (skipped ++ c ∷ []) i n ≤ open_count skipped i n
unfolding open_count
open_count-snoc-le skipped c i zero = omega arith
open_count-snoc-le skipped c i (suc n) =
    ground (arith, contains-snoc skipped c i, open_count-snoc-le skipped c (i + 1) n)

pub open_count-snoc-lt :
    (skipped : List ℕ) (c i n : ℕ)
    → i ≤ c
    → c < i + n
    → contains skipped c ≡ false
    → open_count (skipped ++ c ∷ []) i n < open_count skipped i n
unfolding open_count
open_count-snoc-lt skipped c i zero h k e = absurd (omega arith)
open_count-snoc-lt skipped c i (suc n) h k e = elim (Bool-cases (i == c)) [
  | inl here ↦ ground (arith, contains-snoc skipped c i, open_count-snoc-le skipped c (i + 1) n)
  | inr later ↦ ground (
    arith,
    contains-snoc skipped c i,
    open_count-snoc-lt skipped c (i + 1) n (ground arith) (omega arith) e,
  )
]

pub open_count-nil : (i n : ℕ) → open_count [] i n ≡ n
unfolding open_count
open_count-nil i zero = refl
open_count-nil i (suc n) = rw (contains-nil i) (omega (arith, open_count-nil (i + 1) n))
