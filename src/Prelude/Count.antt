-- ===== src/Prelude/Count.antt =====
-- How often a number occurs in a list, and in the lists of a list.
use Prim.Native.Nat.{ℕ, zero, suc, ◌+◌, ◌<◌}
use mathlib.Core.Path.{◌≡◌, refl}
use mathlib.Core.Bool.{true, false}
use mathlib.Core.List.{List, [], ◌∷◌, ◌++◌}
use mathlib.Core.Option.{some}
use native.Mathlib.Omega.{arith}
use external_toolchain_utils.Prelude.Tests.{if◌then◌else◌, ◌==◌}
use external_toolchain_utils.Prelude.Lists.{get_elem?, set}
use external_toolchain_utils.Prelude.Equality.{contains, nat_eq}

unfoldable pub count_of : ℕ → List ℕ → ℕ
count_of k [] = 0
count_of k (i ∷ is) = (if i == k then 1 else 0) + count_of k is

pub count_of-nil : (k : ℕ) → count_of k [] ≡ 0
unfolding count_of
count_of-nil k = refl

pub count_of-cons :
    (k i : ℕ) (is : List ℕ) → count_of k (i ∷ is) ≡ (if i == k then 1 else 0) + count_of k is
unfolding count_of
count_of-cons k i is = refl

pub count_of-append :
    (k : ℕ) (is js : List ℕ) → count_of k (is ++ js) ≡ count_of k is + count_of k js
unfolding count_of
count_of-append k [] js = omega arith
count_of-append k (i ∷ is) js = omega (arith, count_of-append k is js)

-- A number is in a list if it occurs there.
pub contains-count_of : (k : ℕ) (is : List ℕ) → contains is k ≡ true → 0 < count_of k is
unfolding contains count_of
contains-count_of k [] h = absurd (ground arith)
contains-count_of k (i ∷ is) h = ground (arith, contains-count_of k is)

pub count_of-contains : (k : ℕ) (is : List ℕ) → contains is k ≡ false → count_of k is ≡ 0
unfolding contains count_of
count_of-contains k [] h = refl
count_of-contains k (i ∷ is) h = ground (arith, count_of-contains k is)

unfoldable pub count_all : ℕ → List (List ℕ) → ℕ
count_all k [] = 0
count_all k (is ∷ rest) = count_of k is + count_all k rest

pub count_all-set :
    (k : ℕ) (lists : List (List ℕ)) (n : ℕ) (is js : List ℕ)
    → get_elem? lists n ≡ some is
    → count_all k (set lists n js) + count_of k is ≡ count_all k lists + count_of k js
unfolding count_all
count_all-set k [] n is js e = absurd (cc)
count_all-set k (l ∷ lists) zero is js e = let same : l ≡ is = cc in rw same (omega arith)
count_all-set k (l ∷ lists) (suc n) is js e = let h = count_all-set k lists n is js e in omega arith
