-- ===== src/Bestflags/Generation/Next.antt =====
-- Next of bestflags/hill_climb_best_neighbor.py and of bestflags/iterative_elimination.py: the tasks of the
-- next generation. `dict_eq` is Python's `==` on the dictionaries of two FlagSets.
use external_toolchain_utils.Bestflags.Generation.{
  any_improved, worst_from, new_generation, Generation, Task,
}
use external_toolchain_utils.Bestflags.Flags.{climb_next, decrease_flag, FlagsDict, Library}
use external_toolchain_utils.Prelude.Dict.{keys}
use external_toolchain_utils.Prelude.{
  ℕ, Bool, true, false, not, ◌||◌, none, List, [], ◌∷◌, ◌++◌, Result, ◌>>=◌, ◌>>◌, assert, ◌==◌,
  if◌then◌else◌, runtime_error, ok, err, Eq, nat_eq, ◌≟◌,
}

module _ {K : Type 0} ⦃e : Eq K⦄ (lib : Library K)
    (dict_eq : FlagsDict K → FlagsDict K → Bool) where
  pub in_tasks : FlagsDict K → List (Task (FlagsDict K)) → Bool
  in_tasks d [] = false
  in_tasks d (t ∷ ts) = if dict_eq d t.flags then true else in_tasks d ts

  -- `if new_task not in cache: children_tasks.add(new_task)`, for each dictionary.
  unfoldable pub add_new :
      List (Task (FlagsDict K))
      → List (FlagsDict K)
      → List (Task (FlagsDict K))
      → List (Task (FlagsDict K))
  add_new cache [] tasks = tasks
  add_new cache (d ∷ ds) tasks = add_new cache ds (
      if in_tasks d cache || in_tasks d tasks
      then tasks
      else tasks ++ record { flags = d; cost = none } ∷ [])

  -- The loops over the specs.
  unfoldable pub climb_children : FlagsDict K → List K → Result (List (FlagsDict K))
  climb_children d [] = ok []
  climb_children d (spec ∷ specs) = do
    here ← climb_next lib d spec
    rest ← climb_children d specs
    ok (here ++ rest)

  pub decrease_children : FlagsDict K → List K → Result (List (FlagsDict K))
  decrease_children d [] = ok []
  decrease_children d (spec ∷ specs) = do
    here ← decrease_flag lib d spec
    rest ← decrease_children d specs
    ok (here ∷ rest)

  -- HillClimbingBestBranch.Next, for the best task of the generation.
  unfoldable pub climb_generation :
      List K → List (Task (FlagsDict K)) → Task (FlagsDict K) → Result (Generation (FlagsDict K))
  climb_generation specs cache current_task = do
    children ← climb_children current_task.flags specs
    ok (new_generation (add_new cache children []) (current_task ∷ []))

  -- The end of IterativeEliminationGeneration.Next, for the worst task: no generation where no flag
  -- is left. The worst task is the parent of the new generation.
  pub eliminate_generation :
      List (Task (FlagsDict K))
      → Task (FlagsDict K)
      → Result (List (Generation (FlagsDict K) × Task (FlagsDict K)))
  eliminate_generation cache worst_task = eliminate_from worst_task.flags
    where
      eliminate_from : FlagsDict K → Result (List (Generation (FlagsDict K) × Task (FlagsDict K)))
      eliminate_from [] = ok []
      eliminate_from (f ∷ fs) = do
        children ← decrease_children (f ∷ fs) (keys (f ∷ fs))
        ok ((new_generation (add_new cache children []) [], worst_task) ∷ [])

-- Tasks that are objects, which `!=` compares.
module _ {F : Type 0} (tasks : ℕ → Task F) where
  -- The first part of IterativeEliminationGeneration.Next, with its assertion.
  pub find_worst : ℕ → List ℕ → Result ℕ
  find_worst parent_task pool = do
    worst_task ← worst_from tasks parent_task parent_task pool
    assert (not (worst_task == parent_task))
    ok worst_task

  -- The base line task in a first generation: the one in the pool, which has its result. It is found by
  -- `==`, which compares the FlagSets. Where there is none, `next` raises StopIteration.
  pub find_baseline : ⦃e : Eq F⦄ → ℕ → List ℕ → Result ℕ
  find_baseline parent_task [] = err runtime_error
  find_baseline parent_task (t ∷ ts) =
      let rest = find_baseline parent_task ts in
      if (tasks t).flags ≟ (tasks parent_task).flags then ok t else rest

  -- IterativeEliminationFirstGeneration.IsImproved, with the new `_parent_task`.
  pub first_is_improved : ⦃e : Eq F⦄ → ℕ → List ℕ → Result (ℕ × Bool)
  first_is_improved parent_task pool = do
    parent ← find_baseline parent_task pool
    improved ← any_improved tasks parent pool
    ok (parent, improved)
