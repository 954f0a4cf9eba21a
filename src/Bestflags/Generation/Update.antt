-- ===== src/Bestflags/Generation/Update.antt =====
-- UpdateTask of bestflags/generation.py, called for the tasks of a generation one after the other.
use external_toolchain_utils.Bestflags.Generation.{
  is_done, new_generation, update_task, Generation, update_each, remove_task, has_task, Task,
}
use external_toolchain_utils.Prelude.{
  ℕ, suc, ◌+◌, ◌-◌, ◌≤◌, ◌≡◌, refl, ap, inl, inr, true, false, List, [], ◌∷◌, ◌++◌, append-nil,
  append_assoc, arith, length, ltb, if◌then◌else◌, lt→ltb, Bool-cases, ok, Eq, nat_eq, ◌≟◌,
}

module _ {F : Type 0} ⦃e : Eq F⦄ where
  -- How many of the tasks have the flags.
  unfoldable pub count_flags : F → List (Task F) → ℕ
  count_flags f [] = 0
  count_flags f (t ∷ ts) = let rest = count_flags f ts in if f ≟ t.flags then suc rest else rest

  abbrev generation_of : List (Task F) → List (Task F) → ℕ → Generation F
  generation_of exe_set pool pending = record {
    exe_set = exe_set;
    candidate_pool = pool;
    pending = pending;
  }

  count_nil : (f : F) → count_flags f [] ≡ 0
  unfolding count_flags
  count_nil f = refl

  count_cons :
      (f : F) (t : Task F) (ts : List (Task F))
      → count_flags f (t ∷ ts) ≡ (if f ≟ t.flags then 1 else 0) + count_flags f ts
  unfolding count_flags
  count_cons f t ts = elim (Bool-cases (f ≟ t.flags)) [
    | inl h ↦ rw h (omega arith)
    | inr h ↦ rw h (omega arith)
  ]

  count_same :
      (f : F) (t : Task F) (ts : List (Task F))
      → (f ≟ t.flags) ≡ true
      → count_flags f (t ∷ ts) ≡ suc (count_flags f ts)
  unfolding count_flags
  count_same f t ts h = rw h

  count_other :
      (f : F) (t : Task F) (ts : List (Task F))
      → (f ≟ t.flags) ≡ false
      → count_flags f (t ∷ ts) ≡ count_flags f ts
  unfolding count_flags
  count_other f t ts h = rw h

  count_head : (t : Task F) (ts : List (Task F)) → 1 ≤ count_flags t.flags (t ∷ ts)
  count_head t ts =
      let p = count_same t.flags t ts ((e.beq_iff t.flags t.flags).1 refl) in omega arith

  has_task-append :
      (rem old : List (Task F)) (f : F) → 1 ≤ count_flags f rem → has_task (rem ++ old) f ≡ true
  unfolding has_task
  has_task-append [] old f h = let p = count_nil f in absurd (omega arith)
  has_task-append (t ∷ ts) old f h = elim (Bool-cases (f ≟ t.flags)) [
    | inl same ↦ rw same
    | inr other ↦
        let p = count_other f t ts other in rw other (has_task-append ts old f (omega arith))
  ]

  remove_task-append :
      (rem old : List (Task F)) (f : F)
      → 1 ≤ count_flags f rem
      → remove_task (rem ++ old) f ≡ remove_task rem f ++ old
  unfolding remove_task
  remove_task-append [] old f h = let p = count_nil f in absurd (omega arith)
  remove_task-append (t ∷ ts) old f h = elim (Bool-cases (f ≟ t.flags)) [
    | inl same ↦ rw same
    | inr other ↦
        let p = count_other f t ts other in
        let rest = remove_task-append ts old f (omega arith) in rw (other, rest)
  ]

  length-remove_task :
      (rem : List (Task F)) (f : F)
      → 1 ≤ count_flags f rem
      → length (remove_task rem f) + 1 ≡ length rem
  unfolding remove_task
  length-remove_task [] f h = let p = count_nil f in absurd (omega arith)
  length-remove_task (t ∷ ts) f h = elim (Bool-cases (f ≟ t.flags)) [
    | inl same ↦ rw same (omega arith)
    | inr other ↦
        let p = count_other f t ts other in
        let rest = length-remove_task ts f (omega arith) in rw other (omega arith)
  ]

  -- Removing a task takes one from the count of its flags, and from no other.
  count-remove_task :
      (rem : List (Task F)) (r : Task F) (k : F)
      → 1 ≤ count_flags r.flags rem
      → count_flags k (r ∷ remove_task rem r.flags) ≡ count_flags k rem
  unfolding remove_task
  count-remove_task [] r k h = let p = count_nil r.flags in absurd (omega arith)
  count-remove_task (t ∷ ts) r k h = elim (Bool-cases (r.flags ≟ t.flags)) [
    | inl same ↦
        let eq = (e.beq_iff r.flags t.flags).0 same in
        rw (same, count_cons k r ts, count_cons k t ts, eq)
    | inr other ↦
        let p = count_other r.flags t ts other in
        let rest = count-remove_task ts r k (omega arith) in
        let whole = count_cons k t ts in
        let first = count_cons k r (remove_task ts r.flags) in
        let second = count_cons k t (remove_task ts r.flags) in
        rw (other, count_cons k r (t ∷ remove_task ts r.flags)) (omega arith)
  ]

  update_task-found :
      (rem old pool : List (Task F)) (r : Task F)
      → 1 ≤ count_flags r.flags rem
      → update_task r (generation_of (rem ++ old) pool (length rem))
        ≡ ok (
          true,
          generation_of
              (remove_task rem r.flags ++ (old ++ r ∷ []))
              pool
              (length (remove_task rem r.flags)),
        )
  unfolding update_task
  update_task-found rem old pool r h =
      let less = length-remove_task rem r.flags h in
      let positive : ltb 0 (length rem) ≡ true = lt→ltb 0 (length rem) (omega arith) in
      let left : length rem - 1 ≡ length (remove_task rem r.flags) = omega arith in
      let place = append_assoc (remove_task rem r.flags) old (r ∷ []) in
      rw (has_task-append rem old r.flags h, positive, remove_task-append rem old r.flags h, left)
        (ap (λ s. ok (true, generation_of s pool (length (remove_task rem r.flags)))) place)

  update_each-rest :
      (rem old pool rs : List (Task F))
      → ((k : F) → count_flags k rs ≡ count_flags k rem)
      → update_each rs (generation_of (rem ++ old) pool (length rem))
        ≡ ok (true, generation_of (old ++ rs) pool 0)
  unfolding update_each
  update_each-rest [] old pool [] same = rw (append-nil old)
  update_each-rest (t ∷ ts) old pool [] same =
      let p = count_nil t.flags in
      let q = count_head t ts in let s = same t.flags in absurd (omega arith)
  update_each-rest rem old pool (r ∷ rs) same =
      let q = count_head r rs in
      let s = same r.flags in
      let h : 1 ≤ count_flags r.flags rem = omega arith in
      let rest =
        update_each-rest (remove_task rem r.flags) (old ++ r ∷ []) pool rs
          (fewer rem r rs same h) in
      rw (update_task-found rem old pool r h, rest)
        (ap (λ s. ok (true, generation_of s pool 0)) (append_assoc old (r ∷ []) rs))
    where
      fewer :
          (rem : List (Task F)) (r : Task F) (rs : List (Task F))
          → ((k : F) → count_flags k (r ∷ rs) ≡ count_flags k rem)
          → 1 ≤ count_flags r.flags rem
          → (k : F) → count_flags k rs ≡ count_flags k (remove_task rem r.flags)
      fewer rem r rs same h k =
          let p = count-remove_task rem r k h in
          let c = count_cons k r rs in
          let d = count_cons k r (remove_task rem r.flags) in let s = same k in omega arith

  -- Let the results of the tasks of a new generation come one at a time, in any order: a task of each
  -- FlagSet as often as the generation has it. Then UpdateTask finds each of them, the generation is
  -- done after the last, and its tasks are the ones with the results, in the order of their coming.
  pub update_each-is_done :
      (exe_set pool rs : List (Task F))
      → ((k : F) → count_flags k rs ≡ count_flags k exe_set)
      → (g : Generation F) × (update_each rs (new_generation exe_set pool) ≡ ok (true, g))
        × (is_done g ≡ true)
        × (g.exe_set ≡ rs)
        × (g.candidate_pool ≡ pool)
  update_each-is_done exe_set pool rs same =
      let p = update_each-rest exe_set [] pool rs same in
      (generation_of rs pool 0, (rw (append-nil exe_set) at p), refl, refl, refl)
