-- ===== src/Crosperf/ImageManager/Matrix.antt =====
-- Writes to the matrix, and the number of 'Y's in a column.
use external_toolchain_utils.Crosperf.ImageManager.{
  planned, blank, Cell, count_planned, Matrix, put,
}
use external_toolchain_utils.Prelude.{
  ℕ, zero, suc, ◌+◌, ◌≤◌, ◌<◌, ◌≡◌, refl, ◌≢◌, ◌⊎◌, inl, inr, Bool, true, false, ◌&&◌, arith, ◌==◌,
  if◌then◌else◌, ==_iff, Bool-cases,
}
use mathlib.Core.Path.{fun_ext}

pub put_self : (m : Matrix) (i j : ℕ) (c : Cell) → put m i j c i j ≡ c
unfolding put
put_self m i j c = ground arith

pub put_row : (m : Matrix) (i j : ℕ) (c : Cell) (i' j' : ℕ) → i' ≢ i → put m i j c i' j' ≡ m i' j'
unfolding put
put_row m i j c i' j' h = ground arith

pub put_cases :
    (m : Matrix) (i j : ℕ) (c : Cell) (i' j' : ℕ)
    → ((i' ≡ i) × (j' ≡ j) × (put m i j c i' j' ≡ c)) ⊎ (put m i j c i' j' ≡ m i' j')
unfolding put
put_cases m i j c i' j' = ground arith

-- Taking a write back.
pub put-put_back : (m : Matrix) (i j : ℕ) (c : Cell) → put (put m i j c) i j (m i j) ≡ m
put-put_back m i j c = fun_ext λ i'. fun_ext λ j'. back i' j'
  where
    back : (i' j' : ℕ) → put (put m i j c) i j (m i j) i' j' ≡ m i' j'
    back i' j' = unfold put in same (i' == i) (j' == j) (==_iff i' i).0 (==_iff j' j).0
      where
        same :
            (a b : Bool)
            → (a ≡ true → i' ≡ i)
            → (b ≡ true → j' ≡ j)
            → (if a && b then m i j else if a && b then c else m i' j') ≡ m i' j'
        same true true p q = rw (p refl, q refl)
        same true false p q = refl
        same false b p q = refl

pub count_planned-put_above :
    (m : Matrix) (i j j' n : ℕ) (c : Cell)
    → n ≤ i
    → count_planned (put m i j c) j' n ≡ count_planned m j' n
unfolding count_planned
count_planned-put_above m i j j' zero c h = refl
count_planned-put_above m i j j' (suc n) c h =
    ground (arith, count_planned-put_above m i j j' n c, put_row m i j c n j')

-- A new 'Y' counts in its own column alone.
pub count_planned-put :
    (m : Matrix) (i j j' n : ℕ)
    → i < n
    → m i j ≡ blank
    → count_planned (put m i j planned) j' n ≡ count_planned m j' n + (if j' == j then 1 else 0)
unfolding count_planned put
count_planned-put m i j j' zero h e = absurd (omega arith)
count_planned-put m i j j' (suc n) h e = elim (Bool-cases (n == i)) [
  | inl here ↦ ground (arith, count_planned-put_above m i j j' n planned)
  | inr later ↦ ground (arith, count_planned-put m i j j' n (ground arith) e)
]

pub put-put_blank :
    (m m' : Matrix) (i j : ℕ) → m i j ≡ blank → m' ≡ put m i j planned → put m' i j blank ≡ m
put-put_blank m m' i j e p = rw p (rw e at (put-put_back m i j planned))
