-- ===== src/Prelude/Equality.antt =====
-- Decidable equality as an interface: `==` of the source's objects, and `in` over a list.
use Prim.Native.Nat.{ℕ}
use mathlib.Core.Path.{◌≡◌, refl}
use mathlib.Core.Logic.{◌↔◌, ◌⊎◌, ◌≢◌, inl, inr}
use mathlib.Core.Bool.{Bool, true, false, ◌||◌}
use mathlib.Core.List.{List, [], ◌∷◌, ◌++◌}
use native.Mathlib.Omega.{arith}
use external_toolchain_utils.Prelude.Tests.{◌==◌, ==_iff, Bool-cases}

pub record Eq {ℓ} (A : Type ℓ) : Type ℓ where
  pub beq : A → A → Bool
  pub beq_iff : (x y : A) → (beq x y ≡ true) ↔ (x ≡ y)

infix 50 ◌≟◌
abbrev pub ◌≟◌ {ℓ} : {A : Type ℓ} ⦃e : Eq A⦄ → A → A → Bool
◌≟◌ ⦃e⦄ = e.beq

instance abbrev pub nat_eq : Eq ℕ
nat_eq = record { beq = ◌==◌; beq_iff = ==_iff }

module _ {ℓ} {A : Type ℓ} ⦃e : Eq A⦄ where
  pub Eq-cases : (a b : A) → (a ≡ b) ⊎ (a ≢ b)
  Eq-cases a b = elim (Bool-cases (a ≟ b)) [
    | inl same ↦ inl ((e.beq_iff a b).0 same)
    | inr other ↦ inr (λ p. absurd (differ other ((e.beq_iff a b).1 p)))
  ]
    where
      differ : {x : Bool} → x ≡ false → x ≡ true → ⊥
      differ p q = cc

  pub beq_false : (a b : A) → a ≢ b → a ≟ b ≡ false
  beq_false a b ne = elim (Bool-cases (a ≟ b)) [
    | inl same ↦ absurd (ne ((e.beq_iff a b).0 same))
    | inr other ↦ other
  ]

  -- `a in xs`
  unfoldable pub contains : List A → A → Bool
  contains [] a = false
  contains (x ∷ xs) a = a ≟ x || contains xs a

  pub contains-append :
      (xs ys : List A) (a : A) → contains (xs ++ ys) a ≡ (contains xs a || contains ys a)
  unfolding contains
  contains-append [] ys a = refl
  contains-append (x ∷ xs) ys a = ground (arith, contains-append xs ys a)

  pub contains-cons_self : (a : A) (xs : List A) → contains (a ∷ xs) a ≡ true
  unfolding contains
  contains-cons_self a xs = ground (arith, (e.beq_iff a a).1 refl)

  pub contains-snoc : (xs : List A) (b a : A) → contains (xs ++ b ∷ []) a ≡ (contains xs a || a ≟ b)
  unfolding contains
  contains-snoc [] b a = ground arith
  contains-snoc (x ∷ xs) b a = ground (arith, contains-snoc xs b a)

  pub contains-nil : (a : A) → contains [] a ≡ false
  unfolding contains
  contains-nil a = refl

  pub contains-cons :
      (x : A) (xs : List A) (a : A) → contains (x ∷ xs) a ≡ true → (a ≡ x) ⊎ (contains xs a ≡ true)
  unfolding contains
  contains-cons x xs a h = elim (Bool-cases (a ≟ x)) [
    | inl here ↦ inl ((e.beq_iff a x).0 here)
    | inr there ↦ inr (rw there at h)
  ]

  pub contains-cons_of :
      (x : A) (xs : List A) (a : A) → contains xs a ≡ true → contains (x ∷ xs) a ≡ true
  unfolding contains
  contains-cons_of x xs a h = ground (arith, h)
