-- ===== src/Automation/Machines/Uses.antt =====
-- What the acquisition and the release of machines do to the uses of a pool.
use external_toolchain_utils.Prelude.Count.{count_of, count_of-nil, count_of-cons}
use mathlib.Core.Option.{some-injective}
use external_toolchain_utils.Automation.Machines.{
  uses_at, update_at, release, acquire, Pool, all_some, Machine, return_machines,
}
use external_toolchain_utils.Prelude.{
  ℕ, zero, suc, ◌+◌, ◌-◌, ◌≤◌, ◌<◌, ◌≡◌, refl, ap, ◌≢◌, ◌⊎◌, inl, inr, Bool, true, false, Option,
  none, some, List, [], ◌∷◌, arith, length, get_elem?, Result, ◌==◌, if◌then◌else◌, lt→ltb,
  Option-cases, true-false, ok,
}

-- How often machine `k` was handed out.
unfoldable pub count_some : ℕ → List (Option ℕ) → ℕ
count_some k [] = 0
count_some k (none ∷ os) = count_some k os
count_some k (some i ∷ os) = (if i == k then 1 else 0) + count_some k os

pub count_some-cons :
    (k i : ℕ) (os : List (Option ℕ))
    → count_some k (some i ∷ os) ≡ (if i == k then 1 else 0) + count_some k os
unfolding count_some
count_some-cons k i os = refl

pub all_some-count :
    (k : ℕ) (os : List (Option ℕ)) (is : List ℕ)
    → all_some os ≡ some is
    → count_some k os ≡ count_of k is
unfolding all_some count_some count_of
all_some-count k [] is e = ground arith
all_some-count k (none ∷ os) is e = absurd (cc)
all_some-count k (some i ∷ os) is e = elim (Option-cases (all_some os)) [
  | inl n ↦ absurd (true-false {b = false} (ground arith) refl)
  | inr (is', p) ↦ ground (arith, all_some-count k os is' p)
]

module _ (f : Machine → Result Machine) (m m' : Machine) (done : f m ≡ ok m') where
  -- An update of a machine that is there, and what it does to the uses.
  pub update_at_lem :
      (pool : Pool) (i : ℕ)
      → get_elem? pool i ≡ some m
      → (pool' : Pool) × (update_at pool i f ≡ ok pool')
        × (length pool' ≡ length pool)
        × (uses_at pool' i ≡ m'.uses)
        × ((k : ℕ) → k ≢ i → uses_at pool' k ≡ uses_at pool k)
  unfolding update_at
  update_at_lem [] i e = absurd (cc)
  update_at_lem (x ∷ pool) zero e =
      (m' ∷ pool, rw (some-injective x m e, done), refl, refl, λ k ne. other k ne)
    where
      other : (k : ℕ) → k ≢ 0 → uses_at (m' ∷ pool) k ≡ uses_at (x ∷ pool) k
      other zero ne = absurd (ne refl)
      other (suc k) ne = refl
  update_at_lem (x ∷ pool) (suc i) e =
      let (pool', p, len, here, others) = update_at_lem pool i e in
      (x ∷ pool', rw p, ap suc len, here, λ k ne. other k ne pool' others)
    where
      other :
          (k : ℕ)
          → k ≢ suc i
          → (pool' : Pool) → ((k : ℕ) → k ≢ i → uses_at pool' k ≡ uses_at pool k)
          → uses_at (x ∷ pool') k ≡ uses_at (x ∷ pool) k
      other zero ne pool' h = refl
      other (suc k) ne pool' h = h k (λ e. ne (ap suc e))

pub uses_at-some :
    (pool : Pool) (i : ℕ) (m : Machine) → get_elem? pool i ≡ some m → uses_at pool i ≡ m.uses
uses_at-some pool i m e = rw (e, uses_at)

pub acquire_lem :
    (exclusively : Bool) (m : Machine)
    → m.locked ≡ false
    → (m' : Machine) × (acquire exclusively m ≡ ok m') × (m'.uses ≡ m.uses + 1)
unfolding acquire
acquire_lem exclusively m h =
    (record m { locked = if exclusively then true else m.locked; uses = m.uses + 1 }, rw h, refl)

pub release_lem :
    (m : Machine) → 0 < m.uses → (m' : Machine) × (release m ≡ ok m') × (m'.uses ≡ m.uses - 1)
unfolding release
release_lem m h = (
  record m { uses = m.uses - 1; locked = if m.uses - 1 == 0 then false else m.locked },
  rw (lt→ltb 0 m.uses h),
  refl,
)

pub same_or_not : (k i : ℕ) → (k ≡ i) ⊎ (k ≢ i)
same_or_not k i = grind arith

-- A machine that is in use can be released.
pub take_back :
    (pool : Pool) (i : ℕ)
    → 0 < uses_at pool i
    → (pool' : Pool) × (update_at pool i release ≡ ok pool')
      × ((k : ℕ) → uses_at pool' k + (if i == k then 1 else 0) ≡ uses_at pool k)
take_back pool i p =
    let (m, at, pos) = present in
    let (m', r, fewer_uses) = release_lem m pos in
    let (pool', u, len, here, others) = update_at_lem release m m' r pool i at in
    (
      pool',
      u,
      λ k. elim (same_or_not k i) [
        | inl eq ↦ rw eq (let v = uses_at-some pool i m at in ground arith)
        | inr ne ↦ let v = others k ne in ground arith
      ],
    )
  where
    present : (m : Machine) × (get_elem? pool i ≡ some m) × (0 < m.uses)
    present = elim (Option-cases (get_elem? pool i)) [
      | inl n ↦ absurd (let q : 0 < 0 = rw (n, uses_at) at p in omega arith)
      | inr (m, e) ↦ (m, e, rw (e, uses_at) at p)
    ]

pub self : (i : ℕ) → (if i == i then 1 else 0) ≡ suc 0
self i = ground arith

-- ReturnMachines does not raise for machines that are in use as often as they are returned.
pub return_machines_lem :
    (is : List ℕ) (pool : Pool)
    → ((k : ℕ) → count_of k is ≤ uses_at pool k)
    → (pool' : Pool) × (return_machines is pool ≡ ok pool')
      × ((k : ℕ) → uses_at pool' k + count_of k is ≡ uses_at pool k)
unfolding return_machines
return_machines_lem [] pool h = (pool, refl, λ k. let z = count_of-nil k in omega arith)
return_machines_lem (i ∷ is) pool h =
    let (pool₁, u, back) = take_back pool i (in_use (h i)) in
    let (pool₂, r, rest) = return_machines_lem is pool₁ (λ k. fewer k (h k) (back k)) in
    (
      pool₂,
      rw (u, r),
      λ k. let a = back k in let b = rest k in let c = count_of-cons k i is in omega arith,
    )
  where
    in_use : count_of i (i ∷ is) ≤ uses_at pool i → 0 < uses_at pool i
    in_use p = let c = count_of-cons i i is in omega (arith, self i)

    fewer :
        {n m : ℕ} (k : ℕ)
        → count_of k (i ∷ is) ≤ n
        → m + (if i == k then 1 else 0) ≡ n
        → count_of k is ≤ m
    fewer k p q = let c = count_of-cons k i is in omega arith
