-- ===== src/Bestflags/Generation/Tests.antt =====
-- A generation of two tasks, whose flags are named by numbers.
use external_toolchain_utils.Bestflags.Generation.Children.{climb_generation-bounds}
use external_toolchain_utils.Bestflags.Generation.Next.{climb_generation}
use external_toolchain_utils.Bestflags.Flags.{flag_of, FlagsDict, Library}
use external_toolchain_utils.Prelude.Dict.{lookup}
use external_toolchain_utils.Bestflags.Generation.Worst.{worst_from-any_improved, OthersAtLeast}
use external_toolchain_utils.Bestflags.Generation.Best.{climb_is_improved-IsBest, IsBest}
use external_toolchain_utils.Bestflags.Generation.Update.{update_each-is_done, count_flags}
use external_toolchain_utils.Bestflags.Generation.{
  compare_costs, any_improved, worst_from, is_done, new_generation, update_each, climb_is_improved,
  Task, Generation,
}
use external_toolchain_utils.Prelude.{
  ℕ, zero, suc, ◌≤◌, ◌<◌, ◌≡◌, refl, ◌≢◌, Bool, true, false, Option, none, some, List, [], ◌∷◌,
  arith, ltb, ok, nat_eq, contains,
}

abbrev task_of : ℕ → Option ℕ → Task ℕ
task_of flags cost = record { flags = flags; cost = cost }

abbrev two_tasks : List (Task ℕ)
two_tasks = task_of 1 none ∷ task_of 2 none ∷ []

abbrev two_results : List (Task ℕ)
two_results = task_of 2 (some 30) ∷ task_of 1 (some 20) ∷ []

same_count : (k : ℕ) → count_flags k two_results ≡ count_flags k two_tasks
unfolding count_flags
same_count k = ground arith

update_each-is_done_example :
    (g : Generation ℕ) × (update_each two_results (new_generation two_tasks []) ≡ ok (true, g))
    × (is_done g ≡ true)
    × (g.exe_set ≡ two_results)
    × (g.candidate_pool ≡ [])
update_each-is_done_example = update_each-is_done two_tasks [] two_results same_count

climb_is_improved-IsBest_example :
    (b : Task ℕ) × (c : ℕ) × (climb_is_improved
        (new_generation two_results (task_of 3 (some 25) ∷ []))
      ≡ ok (some b, ltb c 25))
    × IsBest b c two_results
climb_is_improved-IsBest_example =
    climb_is_improved-IsBest (new_generation two_results (task_of 3 (some 25) ∷ []))
      (task_of 2 (some 30)) (task_of 1 (some 20) ∷ []) (task_of 3 (some 25)) 25 refl refl
      ((30, refl, omega arith), ((20, refl, omega arith), tt)) refl

-- The objects 0 and 1 hold the two results, and 2 is the parent. Object 1 equals the parent.
abbrev objects : ℕ → Task ℕ
objects zero = task_of 2 (some 30)
objects (suc zero) = task_of 3 (some 20)
objects (suc (suc t)) = task_of 3 (some 25)

improves : any_improved objects 2 (0 ∷ 1 ∷ []) ≡ ok true
unfolding any_improved compare_costs
improves = refl

worst_from-any_improved_example :
    (w c : ℕ) × (worst_from objects 2 2 (0 ∷ 1 ∷ []) ≡ ok w)
    × ((objects w).cost ≡ some c)
    × (contains (0 ∷ 1 ∷ []) w ≡ true)
    × (w ≢ 2)
    × (c < 25)
    × OthersAtLeast objects 2 c (0 ∷ 1 ∷ [])
worst_from-any_improved_example =
    worst_from-any_improved objects 2 25 (0 ∷ 1 ∷ []) refl
      ((30, refl, λ _. omega arith), ((20, refl, λ _. omega arith), tt)) improves

abbrev plain_library : Library ℕ
plain_library = record { range_of = λ spec. some (1, 4); randint = λ start end. start }

abbrev never : FlagsDict ℕ → FlagsDict ℕ → Bool
never a b = false

climb_generation-bounds_example :
    (g : Generation (FlagsDict ℕ)) × (climb_generation plain_library never
        (7 ∷ 8 ∷ [])
        []
        (record { flags = (7, flag_of 7 2) ∷ []; cost = some 5 })
      ≡ ok g)
    × (g.pending ≤ 4)
    × (g.candidate_pool ≡ record { flags = (7, flag_of 7 2) ∷ []; cost = some 5 } ∷ [])
unfolding lookup
climb_generation-bounds_example =
    climb_generation-bounds plain_library never (7 ∷ 8 ∷ []) []
      (record { flags = (7, flag_of 7 2) ∷ []; cost = some 5 })
      ((omega arith, (omega arith, omega arith)), ((omega arith, tt), tt))
