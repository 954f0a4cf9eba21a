-- ===== src/Prelude/Dict.antt =====
-- A Python dictionary as an association list. Its laws say what `lookup` sees.
use mathlib.Core.Path.{◌≡◌, refl, sym, ◌∙◌}
use mathlib.Core.Logic.{◌≢◌, inl, inr}
use mathlib.Core.Option.{Option, none, some}
use mathlib.Core.List.{List, [], ◌∷◌, map}
use native.Mathlib.Omega.{arith}
use external_toolchain_utils.Prelude.Tests.{if◌then◌else◌, Bool-cases}
use external_toolchain_utils.Prelude.Equality.{Eq, ◌≟◌}

module _ {ℓ κ} {K : Type ℓ} {V : Type κ} where
  abbrev pub keys : List (K × V) → List K
  keys m = map (λ p. p.0) m

module _ {ℓ κ} {K : Type ℓ} ⦃e : Eq K⦄ {V : Type κ} where
  unfoldable pub lookup : K → List (K × V) → Option V
  lookup k [] = none
  lookup k ((j, v) ∷ m) = if j ≟ k then some v else lookup k m

  -- `m[k] = v`
  unfoldable pub insert : K → V → List (K × V) → List (K × V)
  insert k v [] = (k, v) ∷ []
  insert k v ((j, w) ∷ m) = if j ≟ k then (j, v) ∷ m else (j, w) ∷ insert k v m

  -- `del m[k]`, for a key that is there.
  unfoldable pub delete : K → List (K × V) → List (K × V)
  delete k [] = []
  delete k ((j, w) ∷ m) = if j ≟ k then delete k m else (j, w) ∷ delete k m

  pub lookup-insert_self : (k : K) (v : V) (m : List (K × V)) → lookup k (insert k v m) ≡ some v
  unfolding lookup insert
  lookup-insert_self k v [] = ground (arith, (e.beq_iff k k).1 refl)
  lookup-insert_self k v ((j, w) ∷ m) = ground (arith, lookup-insert_self k v m)

  pub lookup-insert_ne :
      (k j : K) (v : V) (m : List (K × V)) → k ≢ j → lookup j (insert k v m) ≡ lookup j m
  unfolding lookup insert
  lookup-insert_ne k j v [] h = elim (Bool-cases (k ≟ j)) [
    | inl same ↦ absurd (h ((e.beq_iff k j).0 same))
    | inr other ↦ rw other
  ]
  lookup-insert_ne k j v ((i, w) ∷ m) h = elim (Bool-cases (i ≟ k)) [
    | inl same ↦ elim (Bool-cases (i ≟ j)) [
      | inl clash ↦ absurd (h (sym ((e.beq_iff i k).0 same) ∙ (e.beq_iff i j).0 clash))
      | inr other ↦ rw (same, other)
    ]
    | inr other ↦ rw (other, lookup-insert_ne k j v m h)
  ]

  pub lookup-delete_self : (k : K) (m : List (K × V)) → lookup k (delete k m) ≡ none
  unfolding lookup delete
  lookup-delete_self k [] = refl
  lookup-delete_self k ((j, w) ∷ m) = ground (arith, lookup-delete_self k m)

  pub lookup-delete_ne : (k j : K) (m : List (K × V)) → k ≢ j → lookup j (delete k m) ≡ lookup j m
  unfolding lookup delete
  lookup-delete_ne k j [] h = refl
  lookup-delete_ne k j ((i, w) ∷ m) h = elim (Bool-cases (i ≟ k)) [
    | inl same ↦ elim (Bool-cases (i ≟ j)) [
      | inl clash ↦ absurd (h (sym ((e.beq_iff i k).0 same) ∙ (e.beq_iff i j).0 clash))
      | inr other ↦ rw (same, other, lookup-delete_ne k j m h)
    ]
    | inr other ↦ rw (other, lookup-delete_ne k j m h)
  ]
