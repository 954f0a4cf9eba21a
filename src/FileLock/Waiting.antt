-- ===== src/FileLock/Waiting.antt =====
-- Machine.TryLock of file_lock_machine.py: lock attempts with pauses until a timeout. `meanwhile` is what
-- other processes do to the file in a pause. A timeout below 0 is `none`. The loop runs on fuel.
use external_toolchain_utils.FileLock.Lasting.{lock_held, IsHeld}
use external_toolchain_utils.Prelude.{
  ℕ, zero, suc, ◌+◌, ◌-◌, ◌/◌, ◌≤◌, ◌<◌, ◌≡◌, refl, ap, inl, inr, Bool, true, false, Option, none,
  some, arith, ltb, if◌then◌else◌, ltb→le, le→ltb, Bool-cases,
}
use Prim.Native.String.{String}
use external_toolchain_utils.FileLock.{
  non_blocking_lock, Caller, LockFile, Outcome, returned, raised_io_error, raised_os_error,
}

-- `timeout -= sleep`
unfoldable pub reduce : ℕ → Option ℕ → Option ℕ
reduce sleep none = none
reduce sleep (some timeout) = if ltb timeout sleep then none else some (timeout - sleep)

-- Does the loop end, by a lock, an exception or the timeout?
unfoldable pub is_final : Outcome → Option ℕ → Bool
is_final (returned locked) none = true
is_final (returned locked) (some timeout) = locked
is_final raised_io_error timeout = true
is_final raised_os_error timeout = true

module _ (meanwhile : ℕ → LockFile → LockFile) (c : Caller) (exclusive : Bool)
    (reason : String) where
  pub try_rounds : (fuel sleep : ℕ) → Option ℕ → LockFile → Option (Outcome × LockFile)
  try_rounds zero sleep timeout file = none
  try_rounds (suc fuel) sleep timeout file =
      let attempt = non_blocking_lock c exclusive reason file in
      let rest = try_rounds fuel sleep (reduce sleep timeout) (meanwhile fuel attempt.1) in
      if is_final attempt.0 timeout then some attempt else rest

  unfoldable pub try_lock : (fuel timeout : ℕ) → LockFile → Option (Outcome × LockFile)
  try_lock fuel timeout file = try_rounds fuel (timeout / 10) (some timeout) file

  -- How many rounds are enough.
  rounds_left : Option ℕ → ℕ
  rounds_left none = 1
  rounds_left (some timeout) = timeout + 2

  rounds_enough : (timeout : ℕ) → rounds_left (some timeout) ≤ timeout + 2
  unfolding rounds_left
  rounds_enough timeout = omega arith

  next_round :
      (fuel sleep timeout : ℕ)
      → 1 ≤ sleep
      → timeout + 2 ≤ suc fuel
      → rounds_left (reduce sleep (some timeout)) ≤ fuel
  unfolding rounds_left reduce
  next_round fuel sleep timeout h enough = elim (Bool-cases (ltb timeout sleep)) [
    | inl over ↦ rw over (omega arith)
    | inr under ↦ let le = ltb→le timeout sleep under in rw under (omega arith)
  ]

  always_final : (o : Outcome) → is_final o none ≡ true
  unfolding is_final
  always_final (returned locked) = refl
  always_final raised_io_error = refl
  always_final raised_os_error = refl

  try_rounds-returns :
      (fuel sleep : ℕ) (timeout : Option ℕ) (file : LockFile)
      → 1 ≤ sleep
      → rounds_left timeout ≤ fuel
      → (r : Outcome × LockFile) × (try_rounds fuel sleep timeout file ≡ some r)
  unfolding try_rounds rounds_left
  try_rounds-returns zero sleep none file h enough = absurd (omega arith)
  try_rounds-returns zero sleep (some t) file h enough = absurd (omega arith)
  try_rounds-returns (suc fuel) sleep none file h enough = (
    non_blocking_lock c exclusive reason file,
    rw (always_final (non_blocking_lock c exclusive reason file).0),
  )
  try_rounds-returns (suc fuel) sleep (some t) file h enough =
      let attempt = non_blocking_lock c exclusive reason file in
      let (r, run) =
        try_rounds-returns fuel sleep (reduce sleep (some t)) (meanwhile fuel attempt.1) h
          (next_round fuel sleep t h enough) in
      elim (Bool-cases (is_final attempt.0 (some t))) [
        | inl over ↦ (attempt, rw over)
        | inr more ↦ (r, rw more run)
      ]

  -- For a timeout of at least 10, TryLock ends after at most `timeout + 2` attempts, whatever the other
  -- processes do.
  pub try_lock-returns :
      (timeout : ℕ) (file : LockFile)
      → 10 ≤ timeout
      → (r : Outcome × LockFile) × (try_lock (timeout + 2) timeout file ≡ some r)
  unfolding try_lock
  try_lock-returns timeout file h =
      try_rounds-returns (timeout + 2) (timeout / 10) (some timeout) file (omega arith)
        (rounds_enough timeout)

  reduce_zero : (timeout : ℕ) → reduce 0 (some timeout) ≡ some timeout
  unfolding reduce
  reduce_zero timeout =
      let not_below : ltb timeout 0 ≡ false = le→ltb timeout 0 (omega arith) in
      rw not_below (ap (λ t. some t) (omega arith))

  try_rounds-held :
      (fuel timeout p : ℕ) (user : String) (file : LockFile)
      → IsHeld p user file
      → ((n : ℕ) (f : LockFile) → IsHeld p user f → IsHeld p user (meanwhile n f))
      → try_rounds fuel 0 (some timeout) file ≡ none
  unfolding try_rounds is_final
  try_rounds-held zero timeout p user file held kept = refl
  try_rounds-held (suc fuel) timeout p user file held kept =
      let rest =
        try_rounds-held fuel timeout p user (meanwhile fuel file) (kept fuel file held) kept in
      rw (lock_held c exclusive reason p user file held, reduce_zero timeout, rest)

  -- For a timeout below 10, TryLock makes attempts without end on a file that a process holds
  -- exclusively and goes on holding in every pause: no number of rounds is enough.
  pub try_lock-held :
      (fuel timeout p : ℕ) (user : String) (file : LockFile)
      → timeout < 10
      → IsHeld p user file
      → ((n : ℕ) (f : LockFile) → IsHeld p user f → IsHeld p user (meanwhile n f))
      → try_lock fuel timeout file ≡ none
  unfolding try_lock
  try_lock-held fuel timeout p user file h held kept =
      let no_sleep : timeout / 10 ≡ 0 = omega arith in
      rw no_sleep (try_rounds-held fuel timeout p user file held kept)
