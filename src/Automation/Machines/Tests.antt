-- ===== src/Automation/Machines/Tests.antt =====
-- Two machines, of which one is in use.
use external_toolchain_utils.Automation.Machines.Rollback.{get_machines_lem}
use external_toolchain_utils.Prelude.Count.{count_of}
use external_toolchain_utils.Automation.Machines.Acquire.{choose-IsMatch, release-acquire, PassesAt}
use external_toolchain_utils.Automation.Machines.{
  is_match, uses_at, release, get_machines, Machine, choose, Pool, acquire, MachineSpecification,
}
use Prim.Native.String.{String}
use external_toolchain_utils.Prelude.{
  ℕ, ◌+◌, ◌≡◌, refl, ◌⊎◌, Bool, true, false, List, [], ◌∷◌, length, ◌>>=◌, ok, nat_eq, contains,
}

abbrev any : String → String → Bool
any name pattern = true

abbrev idle : Machine
idle = record {
  hostname = "idle";
  label = "core2duo";
  cpu = "x86";
  cores = 4;
  os = "linux";
  username = "me";
  uses = 0;
  locked = false;
}

abbrev busy : Machine
busy = record idle { hostname = "busy"; uses = 1 }

abbrev exclusive_spec : MachineSpecification
exclusive_spec = record {
  hostname = "*";
  label = "*";
  os = "*";
  lock_required = true;
  preferred_machines = [];
}

release-acquire_example : (acquire true busy >>= release) ≡ ok (record busy { locked = true })
release-acquire_example = release-acquire true busy refl

get_machines_lem_example :
    (pool' : Pool) × (machines : List ℕ) × (get_machines any
        (exclusive_spec ∷ exclusive_spec ∷ exclusive_spec ∷ [])
        (busy ∷ idle ∷ [])
      ≡ ok (pool', machines))
    × ((length machines ≡ 3) ⊎ (machines ≡ []))
    × ((k : ℕ) → uses_at pool' k ≡ uses_at (busy ∷ idle ∷ []) k + count_of k machines)
get_machines_lem_example =
    get_machines_lem any (exclusive_spec ∷ exclusive_spec ∷ exclusive_spec ∷ []) (busy ∷ idle ∷ [])

choose-IsMatch_example : PassesAt (is_match any exclusive_spec) (busy ∷ idle ∷ []) 1
unfolding choose contains
choose-IsMatch_example = choose-IsMatch any exclusive_spec (busy ∷ idle ∷ []) 1 refl
