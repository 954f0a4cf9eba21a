-- ===== src/FileLock.antt =====
-- file_lock_machine.py: the lock file of a machine, its description and the check file beside it, whose
-- advisory lock shows that the process of an automatic lock is still alive. `fcntl.lockf` gives that
-- lock to at most one process and takes it away when the process ends. Reading and writing the lock
-- file itself succeeds, and `flock` makes each operation one step.
pub mod Exclusion
pub mod Lasting
pub mod Waiting
mod Tests
use external_toolchain_utils.Prelude.Texts.{string_eq}
use external_toolchain_utils.Prelude.{
  ℕ, ◌+◌, ◌-◌, Bool, true, false, not, ◌&&◌, ◌||◌, Option, none, some, List, [], ◌∷◌, ◌++◌, ◌==◌,
  if◌then◌else◌, nat_eq, ◌≟◌,
}
use Prim.Native.String.{String}

pub record LockDescription : Type 0 where
  pub owner : String
  pub exclusive : Bool
  pub counter : ℕ
  pub time : ℕ
  pub reason : String
  pub auto : Bool

-- The constructor without a description.
abbrev pub no_description : LockDescription
no_description = record {
  owner = "";
  exclusive = false;
  counter = 0;
  time = 0;
  reason = "";
  auto = false;
}

unfoldable pub is_locked : LockDescription → Bool
is_locked lock = not (lock.counter == 0) || lock.exclusive

-- `exists` says that the check file exists, `holder` which process has the advisory lock on it, and
-- `file_ops` which processes have a handle of that name in FILE_OPS.
pub record LockFile : Type 0 where
  pub description : LockDescription
  pub exists : Bool
  pub holder : Option ℕ
  pub file_ops : List ℕ

-- The process that calls, its user, the time, and the `auto` of its Lock object.
pub record Caller : Type 0 where
  pub process : ℕ
  pub user : String
  pub now : ℕ
  pub auto : Bool

pub data Outcome : Type 0 where
  returned : Bool → Outcome
  raised_io_error raised_os_error : Outcome

unfoldable pub has_handle : ℕ → List ℕ → Bool
has_handle p [] = false
has_handle p (q ∷ qs) = if p == q then true else has_handle p qs

unfoldable pub without : ℕ → List ℕ → List ℕ
without p [] = []
without p (q ∷ qs) = let rest = without p qs in if p == q then rest else q ∷ rest

-- Whether `lockf` without waiting gives the lock to a process.
unfoldable pub is_free_for : ℕ → Option ℕ → Bool
is_free_for p none = true
is_free_for p (some q) = p == q

-- What `p` gives up when it closes its handles.
unfoldable pub released : ℕ → Option ℕ → Option ℕ
released p none = none
released p (some q) = if p == q then none else some q

-- FileLock.__enter__: the description of a dead automatic lock is dropped.
unfoldable pub is_stale : ℕ → LockFile → Bool
unfolding has_handle is_free_for
is_stale p file =
    (file.description.exclusive && file.description.auto)
    && (not (has_handle p file.file_ops) && is_free_for p file.holder)

unfoldable pub enter : ℕ → LockFile → LockFile
enter p file =
    if is_stale p file
    then record file { description = no_description; exists = true; holder = none }
    else file

-- The exclusive branch: OpenLiveCheck, then the fields of the lock.
unfoldable pub lock_exclusively : Caller → String → LockFile → Outcome × LockFile
unfolding is_free_for
lock_exclusively c reason file =
    if is_free_for c.process file.holder
    then (
      returned true,
      record {
        description = record file.description {
          exclusive = true;
          reason = reason;
          owner = c.user;
          time = c.now;
          auto = c.auto;
        };
        exists = true;
        holder = some c.process;
        file_ops = file.file_ops ++ c.process ∷ [];
      },
    )
    else (raised_io_error, record file { exists = true })

pub lock_shared : LockFile → LockFile
lock_shared file = record file {
  description = record file.description { counter = file.description.counter + 1 };
}

unfoldable pub lock_entered : Caller → Bool → String → LockFile → Outcome × LockFile
lock_entered c exclusive reason file =
    if file.description.exclusive
    then (returned false, file)
    else if exclusive
    then (if not (file.description.counter == 0)
        then (returned false, file)
        else lock_exclusively c reason file)
    else (returned true, lock_shared file)

-- Lock.NonBlockingLock
unfoldable pub non_blocking_lock : Caller → Bool → String → LockFile → Outcome × LockFile
unfolding lock_entered
non_blocking_lock c exclusive reason file = lock_entered c exclusive reason (enter c.process file)

-- The handles of the process are closed and the check file is removed.
unfoldable pub remove_check : Caller → LockFile → Outcome × LockFile
unfolding without released
remove_check c file =
    if file.exists
    then (
      returned true,
      record file { exists = false; holder = none; file_ops = without c.process file.file_ops },
    )
    else (
      raised_os_error,
      record file {
        holder = released c.process file.holder;
        file_ops = without c.process file.file_ops;
      },
    )

pub clear_owner : LockFile → LockFile
clear_owner file = record file {
  description = record file.description { exclusive = false; reason = ""; owner = "" };
}

pub unlock_shared : LockFile → LockFile
unlock_shared file = record file {
  description = record file.description { counter = file.description.counter - 1 };
}

abbrev pub same_flag : Bool → Bool → Bool
same_flag true b = b
same_flag false b = not b

unfoldable pub unlock_exclusively : Caller → Bool → LockFile → Outcome × LockFile
unlock_exclusively c force file =
    if not (file.description.owner ≟ c.user) && not force
    then (returned false, file)
    else if not (same_flag file.description.auto c.auto)
    then (returned false, file)
    else if c.auto
    then remove_check c (clear_owner file)
    else (returned true, clear_owner file)

unfoldable pub unlock_entered : Caller → Bool → Bool → LockFile → Outcome × LockFile
unlock_entered c exclusive force file =
    if not (is_locked file.description)
    then (returned true, file)
    else if not (same_flag file.description.exclusive exclusive)
    then (returned false, file)
    else if file.description.exclusive
    then unlock_exclusively c force file
    else (returned true, unlock_shared file)

-- Lock.Unlock
unfoldable pub unlock : Caller → Bool → Bool → LockFile → Outcome × LockFile
unlock c exclusive force file = unlock_entered c exclusive force (enter c.process file)

-- The system closes the handles of a process that ends.
unfoldable pub end_process : ℕ → LockFile → LockFile
end_process p file = record file {
  holder = released p file.holder;
  file_ops = without p file.file_ops;
}
