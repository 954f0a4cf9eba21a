-- ===== src/FileLock/Lasting.antt =====
-- The life of an exclusive lock of file_lock_machine.py: taken, kept from others, and freed again.
use external_toolchain_utils.FileLock.Exclusion.{
  lock_step, IsValid, enter_held, lock_entered-cases, end_step, unlock_entered-cases, Step-IsValid,
}
use external_toolchain_utils.FileLock.{
  no_description, clear_owner, remove_check, lock_shared, same_flag, unlock_entered, is_stale,
  has_handle, is_locked, is_free_for, enter, lock_exclusively, lock_entered, returned,
  unlock_exclusively, Caller, end_process, non_blocking_lock, LockFile, released, unlock,
}
use external_toolchain_utils.Prelude.{
  ℕ, ◌≡◌, refl, sym, ◌∙◌, ◌≢◌, ◌⊎◌, inl, inr, Bool, true, false, not, ◌&&◌, Option, none, some,
  arith, ◌==◌, Bool-cases, true-false, nat_eq, ◌≟◌,
}
use external_toolchain_utils.Prelude.Texts.{string_eq}
use Prim.Native.String.{String}

-- The lock that a user's process has.
abbrev pub IsHeld : ℕ → String → LockFile → Type 0
IsHeld p user file =
    IsValid file
    × (file.description.exclusive ≡ true)
    × (file.description.owner ≡ user)
    × (file.holder ≡ some p)

-- What other users and other processes do, without `force`; a lock attempt may be anyone's.
pub data ForeignSteps (p : ℕ) (user : String) : LockFile → LockFile → Type 0 where
  no_step : (file : LockFile) → ForeignSteps p user file file
  then_lock :
      (c : Caller) (exclusive : Bool) (reason : String) (file file' : LockFile)
      → ForeignSteps p user file file'
      → ForeignSteps p user file (non_blocking_lock c exclusive reason file').1
  then_unlock :
      (c : Caller) (exclusive : Bool) (file file' : LockFile)
      → c.user ≢ user
      → ForeignSteps p user file file'
      → ForeignSteps p user file (unlock c exclusive false file').1
  then_end :
      (q : ℕ) (file file' : LockFile)
      → q ≢ p
      → ForeignSteps p user file file'
      → ForeignSteps p user file (end_process q file')

pub lock_held :
    (c : Caller) (exclusive : Bool) (reason : String) (p : ℕ) (user : String) (file : LockFile)
    → IsHeld p user file
    → non_blocking_lock c exclusive reason file ≡ (returned false, file)
unfolding non_blocking_lock
lock_held c exclusive reason p user file (valid, locked, owned, at) =
    elim (lock_entered-cases c exclusive reason file) [
      | inl e ↦ rw (enter_held c.process file p valid at) e
      | inr (inl (open_to, _, _, _)) ↦ absurd (true-false locked open_to)
      | inr (inr (open_to, _, _)) ↦ absurd (true-false locked open_to)
    ]

foreign_owner : (a b c : String) → a ≡ b → c ≢ b → (not (a ≟ c) && not false) ≡ true
foreign_owner a b c same ne = go (Bool-cases (a ≟ c))
  where
    go : ((a ≟ c) ≡ true) ⊎ ((a ≟ c) ≡ false) → (not (a ≟ c) && not false) ≡ true
    go (inl e) = absurd (ne (sym ((string_eq.beq_iff a c).0 e) ∙ same))
    go (inr e) = rw e

unlock_held :
    (c : Caller) (exclusive : Bool) (p : ℕ) (user : String) (file : LockFile)
    → IsHeld p user file
    → c.user ≢ user
    → (unlock c exclusive false file).1 ≡ file
unfolding unlock unlock_exclusively
unlock_held c exclusive p user file (valid, locked, owned, at) ne =
    elim (unlock_entered-cases c exclusive false file) [
      | inl e ↦ rw (enter_held c.process file p valid at) e
      | inr (inl (_, e)) ↦
          let foreign = foreign_owner file.description.owner user c.user owned ne in
          rw (enter_held c.process file p valid at, e, foreign)
      | inr (inr (open_to, _)) ↦ absurd (true-false locked open_to)
    ]

released_ne : (q p : ℕ) (o : Option ℕ) → q ≢ p → o ≡ some p → released q o ≡ some p
unfolding released
released_ne q p none ne h = absurd (cc)
released_ne q p (some r) ne h = ground arith

end-IsHeld :
    (q p : ℕ) (user : String) (file : LockFile)
    → q ≢ p
    → IsHeld p user file
    → IsHeld p user (end_process q file)
end-IsHeld q p user file ne (valid, locked, owned, at) =
    let kept = Step-IsValid file (end_process q file) (end_step q file) valid in
    let others : released q file.holder ≡ some p = released_ne q p file.holder ne at in
    unfold end_process in (kept, locked, owned, others)

foreign-IsHeld :
    (p : ℕ) (user : String) (file file' : LockFile)
    → ForeignSteps p user file file'
    → IsHeld p user file
    → IsHeld p user file'
foreign-IsHeld p user file file' (no_step _) held = held
foreign-IsHeld p user file file' (then_lock c exclusive reason _ before steps) held =
    let still = foreign-IsHeld p user file before steps held in
    rw (lock_held c exclusive reason p user before still) still
foreign-IsHeld p user file file' (then_unlock c exclusive _ before ne steps) held =
    let still = foreign-IsHeld p user file before steps held in
    rw (unlock_held c exclusive p user before still ne) still
foreign-IsHeld p user file file' (then_end q _ before ne steps) held =
    end-IsHeld q p user before ne (foreign-IsHeld p user file before steps held)

IsTaken : Caller → LockFile → Type 0
IsTaken c file =
    IsHeld c.process c.user file × (file.description.counter ≡ 0) × (file.description.auto ≡ c.auto)

lock_exclusively-IsTaken :
    (c : Caller) (reason : String) (file : LockFile)
    → file.description.counter ≡ 0
    → (lock_exclusively c reason file).0 ≡ returned true
    → IsValid (lock_exclusively c reason file).1
    → IsTaken c (lock_exclusively c reason file).1
unfolding lock_exclusively IsTaken
lock_exclusively-IsTaken c reason file unused = go (is_free_for c.process file.holder) refl
  where
    go :
        (b : Bool)
        → is_free_for c.process file.holder ≡ b
        → (lock_exclusively c reason file).0 ≡ returned true
        → IsValid (lock_exclusively c reason file).1
        → IsTaken c (lock_exclusively c reason file).1
    go true free = simp free (λ done valid. ((valid, refl, refl, refl), unused, refl))
    go false taken = simp taken (λ done. absurd (cc))

lock_entered-IsTaken :
    (c : Caller) (reason : String) (file : LockFile)
    → (lock_entered c true reason file).0 ≡ returned true
    → IsValid (lock_entered c true reason file).1
    → IsTaken c (lock_entered c true reason file).1
lock_entered-IsTaken c reason file = elim (lock_entered-cases c true reason file) [
  | inl e ↦ rw e (λ done. absurd (cc))
  | inr (inl (open_to, asked, unused, e)) ↦ rw e (lock_exclusively-IsTaken c reason file unused)
  | inr (inr (open_to, share, e)) ↦ absurd (cc)
]

lock-IsTaken :
    (c : Caller) (reason : String) (file : LockFile)
    → IsValid file
    → (non_blocking_lock c true reason file).0 ≡ returned true
    → IsTaken c (non_blocking_lock c true reason file).1
lock-IsTaken c reason file valid done =
    let valid' = Step-IsValid file _ (lock_step c true reason file) valid in
    unfold non_blocking_lock in lock_entered-IsTaken c reason (enter c.process file) done valid'

-- An exclusive NonBlockingLock of a valid file that returns True makes every later lock attempt, by
-- any process, return False and change nothing, whatever lock attempts, unforced unlocks by other users and ends
-- of other processes happen before it.
pub non_blocking_lock-lasts :
    (c : Caller) (reason : String) (file file' : LockFile)
    → IsValid file
    → (non_blocking_lock c true reason file).0 ≡ returned true
    → ForeignSteps c.process c.user (non_blocking_lock c true reason file).1 file'
    → (d : Caller) (exclusive : Bool) (reason' : String)
    → non_blocking_lock d exclusive reason' file' ≡ (returned false, file')
unfolding IsTaken
non_blocking_lock-lasts c reason file file' valid done steps d exclusive reason' =
    let (held, _, _) = lock-IsTaken c reason file valid done in
    lock_held d exclusive reason' c.process c.user file'
      (foreign-IsHeld c.process c.user _ file' steps held)

released_self : (p : ℕ) (o : Option ℕ) → o ≡ some p → released p o ≡ none
unfolding released
released_self p none h = refl
released_self p (some q) h = ground arith

same_flag_refl : (b : Bool) → same_flag b b ≡ true
same_flag_refl true = refl
same_flag_refl false = refl

owner_allowed : (a b : String) (force : Bool) → a ≡ b → (not (a ≟ b) && not force) ≡ false
owner_allowed a b force same = let e = (string_eq.beq_iff a b).1 same in rw e

-- The lock is taken off: an automatic lock's check file goes too.
unlock_exclusively-IsTaken :
    (c : Caller) (force : Bool) (file : LockFile)
    → IsTaken c file
    → ((unlock_exclusively c force file).0 ≡ returned true)
      × (is_locked (unlock_exclusively c force file).1.description ≡ false)
      × (c.auto ≡ true → (unlock_exclusively c force file).1.holder ≡ none)
unfolding unlock_exclusively remove_check clear_owner is_locked IsTaken
unlock_exclusively-IsTaken c force file (((alone, ops, checked), locked, owned, at), unused, auto) =
    let own = owner_allowed file.description.owner c.user force owned in
    let agrees : same_flag file.description.auto c.auto ≡ true = rw auto (same_flag_refl c.auto) in
    let none_left : (file.description.counter == 0) ≡ true = rw unused refl in
    let present = checked locked in
    elim (Bool-cases c.auto) [
      | inl automatic ↦ rw (own, agrees) (simp (automatic, present, unused) (refl, refl, λ h. refl))
      | inr manual ↦
          rw (own, agrees) (simp (manual, unused) (refl, refl, λ h. absurd (true-false h refl)))
    ]

unlock_taken :
    (c : Caller) (force : Bool) (file : LockFile)
    → IsTaken c file
    → unlock c true force file ≡ unlock_exclusively c force file
unfolding unlock unlock_entered is_locked IsTaken
unlock_taken c force file ((valid, locked, owned, at), unused, auto) =
    rw (enter_held c.process file c.process valid at) (simp (locked, unused))

-- A process that exclusively locks a valid file can unlock it: Unlock returns True, the lock is free,
-- and for an automatic lock the check file has no holder.
pub unlock-non_blocking_lock :
    (c : Caller) (reason : String) (force : Bool) (file : LockFile)
    → IsValid file
    → (non_blocking_lock c true reason file).0 ≡ returned true
    → ((unlock c true force (non_blocking_lock c true reason file).1).0 ≡ returned true)
      × (is_locked (unlock c true force (non_blocking_lock c true reason file).1).1.description
          ≡ false)
      × (c.auto ≡ true
          → (unlock c true force (non_blocking_lock c true reason file).1).1.holder ≡ none)
unlock-non_blocking_lock c reason force file valid done =
    unlock-IsTaken (non_blocking_lock c true reason file).1 (lock-IsTaken c reason file valid done)
  where
    unlock-IsTaken :
        (taken : LockFile)
        → IsTaken c taken
        → ((unlock c true force taken).0 ≡ returned true)
          × (is_locked (unlock c true force taken).1.description ≡ false)
          × (c.auto ≡ true → (unlock c true force taken).1.holder ≡ none)
    unlock-IsTaken taken held =
        rw (unlock_taken c force taken held) (unlock_exclusively-IsTaken c force taken held)

enter_ended :
    (d : Caller) (p : ℕ) (file : LockFile)
    → file.description.exclusive ≡ true
    → file.description.auto ≡ true
    → file.holder ≡ some p
    → has_handle d.process (end_process p file).file_ops ≡ false
    → enter d.process (end_process p file)
      ≡ record (end_process p file) { description = no_description; exists = true; holder = none }
unfolding enter is_stale end_process
enter_ended d p file locked auto at fresh =
    simp (locked, auto, fresh, released_self p file.holder at)

lock_fresh :
    (d : Caller) (exclusive : Bool) (reason : String) (file : LockFile)
    → file.description ≡ no_description
    → file.holder ≡ none
    → ((lock_entered d exclusive reason file).0 ≡ returned true)
      × ((lock_entered d exclusive reason file).1.description.exclusive ≡ exclusive)
unfolding lock_entered lock_exclusively lock_shared
lock_fresh d true reason file empty idle = simp (empty, idle) (refl, refl)
lock_fresh d false reason file empty idle = simp (empty, idle) (refl, refl)

-- The exclusive lock that a process has on a valid file is free when the process has ended: if the
-- lock is automatic, any process without a handle of the check file gets a lock of either kind.
pub non_blocking_lock-end_process :
    (d : Caller) (exclusive : Bool) (reason : String) (p : ℕ) (user : String) (file : LockFile)
    → IsHeld p user file
    → file.description.auto ≡ true
    → has_handle d.process (end_process p file).file_ops ≡ false
    → ((non_blocking_lock d exclusive reason (end_process p file)).0 ≡ returned true)
      × ((non_blocking_lock d exclusive reason (end_process p file)).1.description.exclusive
          ≡ exclusive)
unfolding non_blocking_lock
non_blocking_lock-end_process d exclusive reason p user file (valid, locked, owned, at) auto fresh =
    rw (enter_ended d p file locked auto at fresh) (lock_fresh d exclusive reason _ refl refl)
