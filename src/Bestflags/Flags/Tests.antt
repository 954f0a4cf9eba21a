-- ===== src/Bestflags/Flags/Tests.antt =====
-- A boolean spec and a numeric spec with the range [1-4], of which the numeric one is on.
use external_toolchain_utils.Bestflags.Flags.Neighbours.{
  decrease_flag-IsNeighbour, climb_next-AllNeighbours, IsNeighbour, AllNeighbours,
}
use external_toolchain_utils.Bestflags.Flags.{
  Flag, decrease_flag, flag_of, climb_next, Library, FlagsDict,
}
use external_toolchain_utils.Prelude.Texts.{string_eq}
use external_toolchain_utils.Prelude.{
  ℕ, ◌≤◌, ◌<◌, ◌≡◌, refl, Option, none, some, List, [], ◌∷◌, arith, length, if◌then◌else◌, ok,
  nat_eq, contains,
}
use external_toolchain_utils.Prelude.Dict.{lookup}
use Prim.Native.String.{String}

abbrev test_range : String → Option (ℕ × ℕ)
test_range spec = if contains ("-O" ∷ []) spec then some (1, 4) else none

abbrev test_library : Library String
test_library = record { range_of = test_range; randint = λ start end. start }

abbrev numeric_on : FlagsDict String
numeric_on = ("-O", flag_of "-O" 2) ∷ []

climb_next-AllNeighbours_example :
    (ds : List (FlagsDict String)) × (climb_next test_library numeric_on "-O" ≡ ok ds)
    × AllNeighbours (test_library.range_of "-O") "-O" numeric_on ds
    × (1 ≤ length ds)
    × (length ds ≤ 2)
unfolding lookup contains
climb_next-AllNeighbours_example =
    climb_next-AllNeighbours test_library numeric_on "-O" (omega arith) (omega arith, omega arith)

decrease_flag-IsNeighbour_example :
    (d' : FlagsDict String) × (decrease_flag test_library numeric_on "-O" ≡ ok d')
    × IsNeighbour (test_library.range_of "-O") "-O" numeric_on d'
    × ((g : Flag String) → lookup "-O" d' ≡ some g → g.value < 2)
unfolding lookup contains
decrease_flag-IsNeighbour_example =
    decrease_flag-IsNeighbour test_library numeric_on "-O" (flag_of "-O" 2) refl
      (omega arith, omega arith)
