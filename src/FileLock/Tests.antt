-- ===== src/FileLock/Tests.antt =====
-- Two users on a lock file that nobody has locked.
use external_toolchain_utils.FileLock.Waiting.{try_lock-held, try_lock-returns, try_lock}
use external_toolchain_utils.FileLock.Lasting.{
  no_step, unlock-non_blocking_lock, then_unlock, non_blocking_lock-end_process, IsHeld,
  non_blocking_lock-lasts,
}
use external_toolchain_utils.FileLock.{
  Outcome, is_free_for, lock_exclusively, lock_entered, is_stale, without, enter, end_process,
  is_locked, no_description, non_blocking_lock, unlock, Caller, has_handle, LockFile, returned,
}
use external_toolchain_utils.FileLock.Exclusion.{lock_step, Step-IsValid, IsValid}
use external_toolchain_utils.Prelude.{
  ℕ, ◌≡◌, refl, ◌≢◌, true, false, none, some, [], ◌∷◌, arith, true-false,
}
use external_toolchain_utils.Prelude.Texts.{string_eq}

abbrev new_file : LockFile
new_file = record { description = no_description; exists = false; holder = none; file_ops = [] }

abbrev ann : Caller
ann = record { process = 1; user = "ann"; now = 10; auto = true }

abbrev bob : Caller
bob = record { process = 2; user = "bob"; now = 20; auto = true }

new_file-IsValid : IsValid new_file
new_file-IsValid = ((λ h. absurd (cc)), (λ p h. absurd (cc)), (λ h. absurd (cc)))

ann_ne_bob : bob.user ≢ ann.user
ann_ne_bob e = absurd (true-false ((string_eq.beq_iff "bob" "ann").1 e) refl)

ann_locks : (non_blocking_lock ann true "build" new_file).0 ≡ returned true
unfolding non_blocking_lock enter is_stale lock_entered lock_exclusively is_free_for has_handle
ann_locks = refl

abbrev locked_file : LockFile
locked_file = record {
  description = record {
    owner = "ann";
    exclusive = true;
    counter = 0;
    time = 10;
    reason = "build";
    auto = true;
  };
  exists = true;
  holder = some 1;
  file_ops = 1 ∷ [];
}

Step-IsValid_example : IsValid (non_blocking_lock ann true "build" new_file).1
Step-IsValid_example =
    Step-IsValid new_file (non_blocking_lock ann true "build" new_file).1
      (lock_step ann true "build" new_file) new_file-IsValid

non_blocking_lock-lasts_example :
    non_blocking_lock bob false "test"
      (unlock bob true false (non_blocking_lock ann true "build" new_file).1).1
    ≡ (returned false, (unlock bob true false (non_blocking_lock ann true "build" new_file).1).1)
non_blocking_lock-lasts_example =
    non_blocking_lock-lasts ann "build" new_file
      (unlock bob true false (non_blocking_lock ann true "build" new_file).1).1 new_file-IsValid
      ann_locks (then_unlock bob true _ _ ann_ne_bob (no_step _)) bob false "test"

unlock-non_blocking_lock_example :
    ((unlock ann true false (non_blocking_lock ann true "build" new_file).1).0 ≡ returned true)
    × (is_locked
          (unlock ann true false (non_blocking_lock ann true "build" new_file).1).1.description
        ≡ false)
    × (true ≡ true
        → (unlock ann true false (non_blocking_lock ann true "build" new_file).1).1.holder ≡ none)
unlock-non_blocking_lock_example =
    unlock-non_blocking_lock ann "build" false new_file new_file-IsValid ann_locks

locked_file-IsHeld : IsHeld 1 "ann" locked_file
unfolding has_handle
locked_file-IsHeld = (((λ h. refl), held, (λ h. refl)), refl, refl, refl)
  where
    held : (p : ℕ) → some 1 ≡ some p → has_handle p (1 ∷ []) ≡ true
    held p h = ground arith

no_handle : has_handle 2 (end_process 1 locked_file).file_ops ≡ false
unfolding has_handle end_process without
no_handle = refl

non_blocking_lock-end_process_example :
    ((non_blocking_lock bob true "test" (end_process 1 locked_file)).0 ≡ returned true)
    × ((non_blocking_lock bob true "test" (end_process 1 locked_file)).1.description.exclusive
        ≡ true)
non_blocking_lock-end_process_example =
    non_blocking_lock-end_process bob true "test" 1 "ann" locked_file locked_file-IsHeld refl
      no_handle

abbrev nobody_else : ℕ → LockFile → LockFile
nobody_else n file = file

try_lock-returns_example :
    (r : Outcome × LockFile) × (try_lock nobody_else bob true "test" 302 300 locked_file ≡ some r)
try_lock-returns_example =
    try_lock-returns nobody_else bob true "test" 300 locked_file (omega arith)

try_lock-held_example : try_lock nobody_else bob true "test" 1000 5 locked_file ≡ none
try_lock-held_example =
    try_lock-held nobody_else bob true "test" 1000 5 1 "ann" locked_file (omega arith)
      locked_file-IsHeld (λ n f h. h)
