-- ===== src/Automation/Machines.antt =====
-- automation/common/machine.py and automation/server/machine_manager.py: the pool of machines.
-- A machine object is its index in the pool. `fnmatch` is Python's, a parameter. The lock that guards
-- each method is held throughout it, so a method is one step.
pub mod Acquire
pub mod Uses
pub mod Rollback
mod Tests
use Prim.Native.String.{String}
use external_toolchain_utils.Prelude.Texts.{string_eq}
use external_toolchain_utils.Prelude.{
  ℕ, zero, suc, ◌+◌, ◌-◌, Bool, true, false, not, ◌&&◌, Option, none, some, List, [], ◌∷◌, ◌++◌,
  get_elem?, Result, ◌>>=◌, ◌>>◌, assert, ltb, ◌==◌, if◌then◌else◌, index_error, ok, err, nat_eq,
  contains,
}

pub record Machine : Type 0 where
  pub hostname : String
  pub label : String
  pub cpu : String
  pub cores : ℕ
  pub os : String
  pub username : String
  pub uses : ℕ
  pub locked : Bool

-- Machine.Acquire
unfoldable pub acquire : Bool → Machine → Result Machine
acquire exclusively m = do
  assert (not m.locked)
  ok (record m { locked = if exclusively then true else m.locked; uses = m.uses + 1 })

-- Machine.Release
unfoldable pub release : Machine → Result Machine
release m = do
  assert (ltb 0 m.uses)
  ok (record m { uses = m.uses - 1; locked = if m.uses - 1 == 0 then false else m.locked })

pub record MachineSpecification : Type 0 where
  pub hostname : String
  pub label : String
  pub os : String
  pub lock_required : Bool
  pub preferred_machines : List String

unfoldable pub add_preferred_machine : String → MachineSpecification → MachineSpecification
add_preferred_machine hostname spec =
    if contains spec.preferred_machines hostname
    then spec
    else record spec { preferred_machines = spec.preferred_machines ++ hostname ∷ [] }

abbrev pub Pool : Type 0
Pool = List Machine

module _ (fnmatch : String → String → Bool) where
  unfoldable pub is_match : MachineSpecification → Machine → Bool
  is_match spec m =
      not m.locked
      && (fnmatch m.hostname spec.hostname && (fnmatch m.label spec.label && fnmatch m.os spec.os))

  -- `[m for m in pool if test(m)]`, as the indices from `i` on.
  unfoldable pub select : (Machine → Bool) → ℕ → Pool → List ℕ
  select test i [] = []
  select test i (m ∷ pool) =
      if test m then i ∷ select test (i + 1) pool else select test (i + 1) pool

-- `min(pool, key=uses)`: the first of the candidates with the fewest uses.
abbrev pub uses_at : Pool → ℕ → ℕ
uses_at pool i = elim (get_elem? pool i) [ none ↦ 0 | some m ↦ m.uses ]

unfoldable pub min_by_uses : Pool → ℕ → List ℕ → ℕ
min_by_uses pool i [] = i
min_by_uses pool i (j ∷ js) =
    min_by_uses pool (if ltb (uses_at pool j) (uses_at pool i) then j else i) js

-- `self._machine_pool[i]` with an operation that may raise.
unfoldable pub update_at : Pool → ℕ → (Machine → Result Machine) → Result Pool
update_at [] i f = err index_error
update_at (m ∷ pool) zero f = do m' ← f m; ok (m' ∷ pool)
update_at (m ∷ pool) (suc i) f = do pool' ← update_at pool i f; ok (m ∷ pool')

-- The acquisition of the machine that was chosen, if any.
unfoldable pub acquire_chosen : MachineSpecification → Pool → Option ℕ → Result (Pool × Option ℕ)
acquire_chosen spec pool none = ok (pool, none)
acquire_chosen spec pool (some i) = do
  pool' ← update_at pool i (acquire spec.lock_required)
  ok (pool', some i)

module _ (fnmatch : String → String → Bool) where
  -- The candidates of a specification: those preferred, if there are any.
  unfoldable pub choose : MachineSpecification → Pool → Option ℕ
  unfolding select is_match min_by_uses
  choose spec pool = elim (select fnmatch (is_match fnmatch spec) 0 pool) [
    | [] ↦ none
    | i ∷ is ↦
        elim (select fnmatch
          (λ m. is_match fnmatch spec m && contains spec.preferred_machines m.hostname) 0 pool) [
            | [] ↦ some (min_by_uses pool i is)
            | j ∷ js ↦ some (min_by_uses pool j js)
          ]
  ]

  -- MachineManager._GetMachine
  unfoldable pub get_machine : MachineSpecification → Pool → Result (Pool × Option ℕ)
  unfolding acquire_chosen
  get_machine spec pool = acquire_chosen spec pool (choose spec pool)

  unfoldable pub get_each : List MachineSpecification → Pool → Result (Pool × List (Option ℕ))
  get_each [] pool = ok (pool, [])
  get_each (spec ∷ specs) pool = do
    (pool₁, got) ← get_machine spec pool
    (pool₂, rest) ← get_each specs pool₁
    ok (pool₂, got ∷ rest)

-- The machines of a list with no `None` in it.
unfoldable pub all_some : List (Option ℕ) → Option (List ℕ)
all_some [] = some []
all_some (none ∷ os) = none
all_some (some i ∷ os) = elim (all_some os) [ none ↦ none | some is ↦ some (i ∷ is) ]

-- The roll-back: `pop` takes the last machine first.
unfoldable pub roll_back : List (Option ℕ) → Pool → Result Pool
roll_back [] pool = ok pool
roll_back (o ∷ os) pool = do
  pool' ← roll_back os pool
  elim o [ none ↦ ok pool' | some i ↦ update_at pool' i release ]

-- What GetMachines does when it has got a machine for each specification, or has not. After the
-- roll-back the list that it returns is empty.
unfoldable pub conclude : Pool → List (Option ℕ) → Option (List ℕ) → Result (Pool × List ℕ)
conclude pool acquired (some is) = ok (pool, is)
conclude pool acquired none = do pool' ← roll_back acquired pool; ok (pool', [])

module _ (fnmatch : String → String → Bool) where
  -- MachineManager.GetMachines
  unfoldable pub get_machines : List MachineSpecification → Pool → Result (Pool × List ℕ)
  unfolding conclude
  get_machines required pool = do
    (pool', acquired) ← get_each fnmatch required pool
    conclude pool' acquired (all_some acquired)

-- MachineManager.ReturnMachines
unfoldable pub return_machines : List ℕ → Pool → Result Pool
return_machines [] pool = ok pool
return_machines (i ∷ is) pool = update_at pool i release >>= return_machines is
