-- ===== src/Automation/Machines/Rollback.antt =====
-- GetMachines of automation/server/machine_manager.py as a whole: the acquisitions one after the
-- other, and the roll-back.
use external_toolchain_utils.Prelude.Count.{count_of-nil, count_of}
use external_toolchain_utils.Automation.Machines.Uses.{
  same_or_not, update_at_lem, acquire_lem, count_some-cons, uses_at-some, all_some-count, take_back,
  self, count_some,
}
use external_toolchain_utils.Automation.Machines.Acquire.{choose-IsMatch}
use external_toolchain_utils.Automation.Machines.{
  conclude, acquire_chosen, choose, is_match, get_machine, get_machines, get_each,
  MachineSpecification, roll_back, uses_at, update_at, release, Pool, all_some, acquire, Machine,
}
use Prim.Native.String.{String}
use external_toolchain_utils.Prelude.{
  ℕ, suc, ◌+◌, ◌≤◌, ◌<◌, ◌≡◌, refl, ap, ◌∙◌, ◌≢◌, ◌⊎◌, inl, inr, Bool, true, false, Option, none,
  some, List, [], ◌∷◌, arith, length, get_elem?, Option-cases, true-false, ok,
}

roll_back-some :
    (i : ℕ) (os : List (Option ℕ)) (pool pool₁ pool₂ : Pool)
    → roll_back os pool ≡ ok pool₁
    → update_at pool₁ i release ≡ ok pool₂
    → roll_back (some i ∷ os) pool ≡ ok pool₂
unfolding roll_back
roll_back-some i os pool pool₁ pool₂ e u = rw (e, u)

-- The roll-back never raises, and takes back just what was handed out.
roll_back_lem :
    (os : List (Option ℕ)) (pool : Pool)
    → ((k : ℕ) → count_some k os ≤ uses_at pool k)
    → (pool' : Pool) × (roll_back os pool ≡ ok pool')
      × ((k : ℕ) → uses_at pool' k + count_some k os ≡ uses_at pool k)
roll_back_lem [] pool h = unfold roll_back count_some in (pool, refl, λ k. omega arith)
roll_back_lem (none ∷ os) pool h =
    let (pool', e, same) = roll_back_lem os pool (λ k. unfold count_some in h k) in
    finish pool' e same
  where
    finish :
        (pool' : Pool)
        → roll_back os pool ≡ ok pool'
        → ((k : ℕ) → uses_at pool' k + count_some k os ≡ uses_at pool k)
        → (pool' : Pool) × (roll_back (none ∷ os) pool ≡ ok pool')
          × ((k : ℕ) → uses_at pool' k + count_some k (none ∷ os) ≡ uses_at pool k)
    finish pool' e same = unfold roll_back count_some in (pool', rw e, same)
roll_back_lem (some i ∷ os) pool h =
    let (pool₁, e, same) = roll_back_lem os pool (λ k. fewer k (h k)) in
    let (pool₂, u, back) = take_back pool₁ i (in_use (h i) (same i)) in
    (
      pool₂,
      roll_back-some i os pool pool₁ pool₂ e u,
      λ k. let p = same k in let q = back k in let c = count_some-cons k i os in omega arith,
    )
  where
    fewer : {n : ℕ} (k : ℕ) → count_some k (some i ∷ os) ≤ n → count_some k os ≤ n
    fewer k p = let c = count_some-cons k i os in omega arith

    in_use : {m n : ℕ} → count_some i (some i ∷ os) ≤ n → m + count_some i os ≡ n → 0 < m
    in_use p q = let c = count_some-cons i i os in omega (arith, self i)

module _ (fnmatch : String → String → Bool) where
  get_machine-none :
      (spec : MachineSpecification) (pool : Pool)
      → choose fnmatch spec pool ≡ none
      → get_machine fnmatch spec pool ≡ ok (pool, none)
  unfolding get_machine
  get_machine-none spec pool n = rw (n, acquire_chosen)

  get_machine-some :
      (spec : MachineSpecification) (pool pool' : Pool) (i : ℕ)
      → choose fnmatch spec pool ≡ some i
      → update_at pool i (acquire spec.lock_required) ≡ ok pool'
      → get_machine fnmatch spec pool ≡ ok (pool', some i)
  unfolding get_machine
  get_machine-some spec pool pool' i e u = rw (e, acquire_chosen, u)

  get_machines-all :
      (required : List MachineSpecification) (pool pool' : Pool) (got : List (Option ℕ))
      (is : List ℕ)
      → get_each fnmatch required pool ≡ ok (pool', got)
      → all_some got ≡ some is
      → get_machines fnmatch required pool ≡ ok (pool', is)
  unfolding get_machines
  get_machines-all required pool pool' got is e s = rw (e, s, conclude)

  get_machines-back :
      (required : List MachineSpecification) (pool pool' pool'' : Pool) (got : List (Option ℕ))
      → get_each fnmatch required pool ≡ ok (pool', got)
      → all_some got ≡ none
      → roll_back got pool' ≡ ok pool''
      → get_machines fnmatch required pool ≡ ok (pool'', [])
  unfolding get_machines
  get_machines-back required pool pool' pool'' got e n r = rw (e, n, conclude, r)

  no_count : (k n : ℕ) → n ≡ n + count_some k (none ∷ [])
  unfolding count_some
  no_count k n = omega arith

  get_machine_lem :
      (spec : MachineSpecification) (pool : Pool)
      → (pool' : Pool) × (o : Option ℕ) × (get_machine fnmatch spec pool ≡ ok (pool', o))
        × ((k : ℕ) → uses_at pool' k ≡ uses_at pool k + count_some k (o ∷ []))
  get_machine_lem spec pool = elim (Option-cases (choose fnmatch spec pool)) [
    | inl n ↦ (pool, none, get_machine-none spec pool n, λ k. no_count k (uses_at pool k))
    | inr (i, e) ↦
        let (m, at, fits) = choose-IsMatch fnmatch spec pool i e in
        let (m', done, more) = acquire_lem spec.lock_required m (free m fits) in
        let (pool', u, len, here, others) =
          update_at_lem (acquire spec.lock_required) m m' done pool i at in
        (
          pool',
          some i,
          get_machine-some spec pool pool' i e u,
          λ k. counted k i m m' pool' at more here others (same_or_not k i),
        )
  ]
    where
      free : (m : Machine) → is_match fnmatch spec m ≡ true → m.locked ≡ false
      free m h = unfold is_match in ground arith

      counted :
          (k i : ℕ) (m m' : Machine) (pool' : Pool)
          → get_elem? pool i ≡ some m
          → m'.uses ≡ m.uses + 1
          → uses_at pool' i ≡ m'.uses
          → ((k : ℕ) → k ≢ i → uses_at pool' k ≡ uses_at pool k)
          → (k ≡ i) ⊎ (k ≢ i)
          → uses_at pool' k ≡ uses_at pool k + count_some k (some i ∷ [])
      counted k i m m' pool' at more here others (inl eq) =
          rw eq (unfold count_some in let v = uses_at-some pool i m at in ground arith)
      counted k i m m' pool' at more here others (inr ne) =
          unfold count_some in let v = others k ne in ground arith

  get_each_lem :
      (specs : List MachineSpecification) (pool : Pool)
      → (pool' : Pool) × (got : List (Option ℕ)) × (get_each fnmatch specs pool ≡ ok (pool', got))
        × ((k : ℕ) → uses_at pool' k ≡ uses_at pool k + count_some k got)
        × (length got ≡ length specs)
  unfolding count_some
  get_each_lem [] pool =
      (pool, [], unfold get_each in refl, (λ k. no_count k (uses_at pool k)), refl)
  get_each_lem (spec ∷ specs) pool =
      let (pool₁, o, e, more) = get_machine_lem spec pool in
      let (pool₂, got, e', more', len) = get_each_lem specs pool₁ in
      finish pool₁ o pool₂ got e e' more more' len
    where
      joined :
          (k : ℕ) (o : Option ℕ) (got : List (Option ℕ))
          → count_some k (o ∷ got) ≡ count_some k (o ∷ []) + count_some k got
      joined k none got = unfold count_some in omega arith
      joined k (some i) got = unfold count_some in omega arith

      finish :
          (pool₁ : Pool) (o : Option ℕ) (pool₂ : Pool) (got : List (Option ℕ))
          → get_machine fnmatch spec pool ≡ ok (pool₁, o)
          → get_each fnmatch specs pool₁ ≡ ok (pool₂, got)
          → ((k : ℕ) → uses_at pool₁ k ≡ uses_at pool k + count_some k (o ∷ []))
          → ((k : ℕ) → uses_at pool₂ k ≡ uses_at pool₁ k + count_some k got)
          → length got ≡ length specs
          → (pool' : Pool) × (got : List (Option ℕ)) × (get_each fnmatch (spec ∷ specs) pool
              ≡ ok (pool', got))
            × ((k : ℕ) → uses_at pool' k ≡ uses_at pool k + count_some k got)
            × (length got ≡ suc (length specs))
      finish pool₁ o pool₂ got e e' more more' len = (
        pool₂,
        o ∷ got,
        unfold get_each in rw (e, e'),
        (λ k. let a = more k in let b = more' k in omega (arith, joined k o got)),
        ap suc len,
      )

  all_some-length :
      (os : List (Option ℕ)) (is : List ℕ) → all_some os ≡ some is → length is ≡ length os
  unfolding all_some
  all_some-length [] is e = ground arith
  all_some-length (none ∷ os) is e = absurd (cc)
  all_some-length (some i ∷ os) is e = elim (Option-cases (all_some os)) [
    | inl n ↦ absurd (true-false {b = false} (ground arith) refl)
    | inr (is', p) ↦ ground (arith, all_some-length os is' p)
  ]

  -- GetMachines never raises. It returns one machine for each specification, or none at all; and
  -- the uses of every machine grow by the number of times that it was returned, so that a call which
  -- returns nothing leaves all uses as they were.
  pub get_machines_lem :
      (required : List MachineSpecification) (pool : Pool)
      → (pool' : Pool) × (machines : List ℕ) × (get_machines fnmatch required pool
          ≡ ok (pool', machines))
        × ((length machines ≡ length required) ⊎ (machines ≡ []))
        × ((k : ℕ) → uses_at pool' k ≡ uses_at pool k + count_of k machines)
  get_machines_lem required pool =
      let (pool', got, e, more, len) = get_each_lem required pool in
      elim (Option-cases (all_some got)) [
        | inl n ↦
            let (pool'', r, back) = roll_back_lem got pool' (λ k. let m = more k in omega arith) in
            (
              pool'',
              [],
              get_machines-back required pool pool' pool'' got e n r,
              inr refl,
              λ k. let m = more k in let b = back k in omega (arith, count_of-nil k),
            )
        | inr (is, s) ↦ (
          pool',
          is,
          get_machines-all required pool pool' got is e s,
          inl (all_some-length got is s ∙ len),
          λ k. let m = more k in let c = all_some-count k got is s in omega arith,
        )
      ]
