-- ===== src/FileLock/Exclusion.antt =====
-- The invariant of a lock file of file_lock_machine.py, and the branches of its operations.
use external_toolchain_utils.Prelude.Texts.{string_eq}
use external_toolchain_utils.FileLock.{
  is_locked, unlock_entered, unlock_shared, same_flag, remove_check, clear_owner,
  unlock_exclusively, returned, lock_shared, lock_exclusively, lock_entered, end_process, unlock,
  non_blocking_lock, without, Caller, is_free_for, released, has_handle, is_stale, LockFile, enter,
}
use external_toolchain_utils.Prelude.{
  ℕ, ◌≡◌, refl, sym, ◌≢◌, ◌⊎◌, inl, inr, Bool, true, false, not, ◌&&◌, Option, none, some, List, [],
  ◌∷◌, ◌++◌, arith, ◌==◌, ==_iff, Bool-cases, true-false, nat_eq, ◌≟◌, Eq-cases,
}
use Prim.Native.String.{String}

-- Exclusive use excludes shared use, the holder of the advisory lock has a handle, and an exclusive
-- description has its check file.
abbrev pub IsValid : LockFile → Type 0
IsValid file =
    (file.description.exclusive ≡ true → file.description.counter ≡ 0)
    × ((p : ℕ) → file.holder ≡ some p → has_handle p file.file_ops ≡ true)
    × (file.description.exclusive ≡ true → file.exists ≡ true)

pub data Step : LockFile → LockFile → Type 0 where
  lock_step :
      (c : Caller) (exclusive : Bool) (reason : String) (file : LockFile)
      → Step file (non_blocking_lock c exclusive reason file).1
  unlock_step :
      (c : Caller) (exclusive force : Bool) (file : LockFile)
      → Step file (unlock c exclusive force file).1
  end_step : (p : ℕ) (file : LockFile) → Step file (end_process p file)

has_handle-append_old :
    (p q : ℕ) (ops : List ℕ) → has_handle p ops ≡ true → has_handle p (ops ++ q ∷ []) ≡ true
unfolding has_handle
has_handle-append_old p q [] h = absurd (cc)
has_handle-append_old p q (r ∷ ops) h = ground (arith, has_handle-append_old p q ops)

has_handle-append_new : (p : ℕ) (ops : List ℕ) → has_handle p (ops ++ p ∷ []) ≡ true
unfolding has_handle
has_handle-append_new p [] = ground arith
has_handle-append_new p (r ∷ ops) = ground (arith, has_handle-append_new p ops)

has_handle-without :
    (p q : ℕ) (ops : List ℕ) → p ≢ q → has_handle p ops ≡ true → has_handle p (without q ops) ≡ true
unfolding has_handle without
has_handle-without p q [] ne h = h
has_handle-without p q (r ∷ ops) ne h = ground (arith, has_handle-without p q ops ne)

released-some : (q : ℕ) (o : Option ℕ) (p : ℕ) → released q o ≡ some p → (o ≡ some p) × (p ≢ q)
unfolding released
released-some q none p h = absurd (cc)
released-some q (some r) p h = ground arith

enter-IsValid : (q : ℕ) (file : LockFile) → IsValid file → IsValid (enter q file)
unfolding enter
enter-IsValid q file valid = elim (Bool-cases (is_stale q file)) [
  | inl stale ↦ rw stale ((λ h. absurd (cc)), (λ p h. absurd (cc)), (λ h. absurd (cc)))
  | inr fresh ↦ rw fresh valid
]

not_stale :
    (q p : ℕ) (file : LockFile)
    → ((q ≡ p) ⊎ (q ≢ p))
    → has_handle p file.file_ops ≡ true
    → file.holder ≡ some p
    → is_stale q file ≡ false
unfolding is_stale is_free_for
not_stale q p file (inl same) held h = ground arith
not_stale q p file (inr other) held h = ground arith

-- While a process has the advisory lock, no call drops the description.
pub enter_held :
    (q : ℕ) (file : LockFile) (p : ℕ) → IsValid file → file.holder ≡ some p → enter q file ≡ file
unfolding enter
enter_held q file p (alone, held, checked) h = rw (not_stale q p file (Eq-cases q p) (held p h) h)

lock_exclusively-IsValid :
    (c : Caller) (reason : String) (file : LockFile)
    → IsValid file
    → file.description.counter ≡ 0
    → IsValid (lock_exclusively c reason file).1
unfolding lock_exclusively
lock_exclusively-IsValid c reason file (alone, held, checked) zero_counter =
    elim (Bool-cases (is_free_for c.process file.holder)) [
      | inl free ↦ rw free (
        (λ h. zero_counter),
        (λ p h.
            let same : c.process ≡ p = cc in
            rw (sym same, has_handle-append_new c.process file.file_ops)),
        (λ h. refl),
      )
      | inr taken ↦ rw taken (alone, held, (λ h. refl))
    ]

-- The branches of NonBlockingLock.
pub lock_entered-cases :
    (c : Caller) (exclusive : Bool) (reason : String) (file : LockFile)
    → (lock_entered c exclusive reason file ≡ (returned false, file))
      ⊎ (((file.description.exclusive ≡ false)
            × (exclusive ≡ true)
            × (file.description.counter ≡ 0)
            × (lock_entered c exclusive reason file ≡ lock_exclusively c reason file))
          ⊎ ((file.description.exclusive ≡ false)
              × (exclusive ≡ false)
              × (lock_entered c exclusive reason file ≡ (returned true, lock_shared file))))
unfolding lock_entered
lock_entered-cases c exclusive reason file = elim (Bool-cases file.description.exclusive) [
  | inl locked ↦ inl (simp locked)
  | inr open_to ↦ elim (Bool-cases exclusive) [
    | inl asked ↦ elim (Bool-cases (file.description.counter == 0)) [
      | inl unused ↦ inr (
          inl (
            open_to,
            asked,
            (==_iff file.description.counter 0).0 unused,
            simp (open_to, asked, unused),
          ))
      | inr used ↦ inl (simp (open_to, asked, used))
    ]
    | inr share ↦ inr (inr (open_to, share, simp (open_to, share)))
  ]
]

lock_entered-IsValid :
    (c : Caller) (exclusive : Bool) (reason : String) (file : LockFile)
    → IsValid file
    → IsValid (lock_entered c exclusive reason file).1
unfolding lock_shared
lock_entered-IsValid c exclusive reason file (alone, held, checked) =
    elim (lock_entered-cases c exclusive reason file) [
      | inl e ↦ rw e (alone, held, checked)
      | inr (inl (open_to, asked, unused, e)) ↦
          rw e (lock_exclusively-IsValid c reason file (alone, held, checked) unused)
      | inr (inr (open_to, share, e)) ↦
          rw e ((λ h. absurd (true-false h open_to)), held, (λ h. absurd (true-false h open_to)))
    ]

held_without :
    (q : ℕ) (file : LockFile)
    → IsValid file
    → (p : ℕ) → released q file.holder ≡ some p
    → has_handle p (without q file.file_ops) ≡ true
held_without q file (alone, held, checked) p h =
    let (at, ne) = released-some q file.holder p h in
    has_handle-without p q file.file_ops ne (held p at)

remove_check-IsValid :
    (c : Caller) (file : LockFile)
    → IsValid file
    → file.description.exclusive ≡ false
    → IsValid (remove_check c file).1
unfolding remove_check
remove_check-IsValid c file valid open_to = go file.exists refl
  where
    go : (b : Bool) → file.exists ≡ b → IsValid (remove_check c file).1
    go true e = simp e (
      (λ h. absurd (true-false h open_to)),
      (λ p h. absurd (cc)),
      (λ h. absurd (true-false h open_to)),
    )
    go false e = simp e (
      (λ h. absurd (true-false h open_to)),
      (λ p h. held_without c.process file valid p h),
      (λ h. absurd (true-false h open_to)),
    )

clear_owner-IsValid : (file : LockFile) → IsValid file → IsValid (clear_owner file)
unfolding clear_owner
clear_owner-IsValid file (alone, held, checked) = ((λ h. absurd (cc)), held, (λ h. absurd (cc)))

unlock_exclusively-IsValid :
    (c : Caller) (force : Bool) (file : LockFile)
    → IsValid file
    → IsValid (unlock_exclusively c force file).1
unfolding unlock_exclusively clear_owner
unlock_exclusively-IsValid c force file valid =
    elim (Bool-cases (not (file.description.owner ≟ c.user) && not force)) [
      | inl foreign ↦ simp foreign valid
      | inr own ↦ elim (Bool-cases (not (same_flag file.description.auto c.auto))) [
        | inl differs ↦ simp (own, differs) valid
        | inr agrees ↦ elim (Bool-cases c.auto) [
          | inl automatic ↦
              rw (own, agrees)
                (simp automatic
                  (remove_check-IsValid c (clear_owner file) (clear_owner-IsValid file valid) refl))
          | inr manual ↦ rw (own, agrees) (simp manual (clear_owner-IsValid file valid))
        ]
      ]
    ]

-- The branches of Unlock.
pub unlock_entered-cases :
    (c : Caller) (exclusive force : Bool) (file : LockFile)
    → ((unlock_entered c exclusive force file).1 ≡ file)
      ⊎ (((file.description.exclusive ≡ true)
            × (unlock_entered c exclusive force file ≡ unlock_exclusively c force file))
          ⊎ ((file.description.exclusive ≡ false)
              × (unlock_entered c exclusive force file ≡ (returned true, unlock_shared file))))
unfolding unlock_entered
unlock_entered-cases c exclusive force file = elim (Bool-cases (is_locked file.description)) [
  | inl locked ↦ elim (Bool-cases (same_flag file.description.exclusive exclusive)) [
    | inl same ↦ elim (Bool-cases file.description.exclusive) [
      | inl alone ↦ inr (inl (alone, rw (locked, same) (simp alone)))
      | inr shared ↦ inr (inr (shared, rw (locked, same) (simp shared)))
    ]
    | inr other ↦ inl (simp (locked, other))
  ]
  | inr idle ↦ inl (simp idle)
]

unlock_entered-IsValid :
    (c : Caller) (exclusive force : Bool) (file : LockFile)
    → IsValid file
    → IsValid (unlock_entered c exclusive force file).1
unfolding unlock_shared
unlock_entered-IsValid c exclusive force file (alone, held, checked) =
    elim (unlock_entered-cases c exclusive force file) [
      | inl e ↦ rw e (alone, held, checked)
      | inr (inl (locked, e)) ↦
          rw e (unlock_exclusively-IsValid c force file (alone, held, checked))
      | inr (inr (open_to, e)) ↦
          rw e ((λ h. absurd (true-false h open_to)), held, (λ h. absurd (true-false h open_to)))
    ]

-- Each call of NonBlockingLock and Unlock by any process, and the end of any process, keeps the
-- invariant: exclusive use excludes shared use, the process with the advisory lock has a handle, and
-- an exclusive description has its check file.
pub Step-IsValid : (file file' : LockFile) → Step file file' → IsValid file → IsValid file'
unfolding non_blocking_lock unlock end_process
Step-IsValid _ _ (lock_step c exclusive reason file) valid =
    lock_entered-IsValid c exclusive reason (enter c.process file)
      (enter-IsValid c.process file valid)
Step-IsValid _ _ (unlock_step c exclusive force file) valid =
    unlock_entered-IsValid c exclusive force (enter c.process file)
      (enter-IsValid c.process file valid)
Step-IsValid _ _ (end_step p file) (alone, held, checked) =
    (alone, (λ q h. held_without p file (alone, held, checked) q h), checked)
