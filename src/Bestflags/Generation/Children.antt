-- ===== src/Bestflags/Generation/Children.antt =====
-- The size of the next generation of bestflags/hill_climb_best_neighbor.py.
use external_toolchain_utils.Bestflags.Generation.{new_generation, Generation, Task}
use external_toolchain_utils.Bestflags.Flags.Neighbours.{climb_next-AllNeighbours, IsOff, IsRange}
use external_toolchain_utils.Bestflags.Flags.{FlagsDict, Library}
use external_toolchain_utils.Prelude.Dict.{lookup}
use external_toolchain_utils.Prelude.{
  ◌+◌, ◌*◌, ◌≤◌, ◌≡◌, refl, inl, inr, Bool, ◌||◌, none, List, [], ◌∷◌, ◌++◌, arith, length,
  length-append, Bool-cases, ok, Eq,
}
use external_toolchain_utils.Bestflags.Generation.Next.{
  climb_children, climb_generation, add_new, in_tasks,
}

module _ {K : Type 0} ⦃e : Eq K⦄ (lib : Library K)
    (dict_eq : FlagsDict K → FlagsDict K → Bool) where
  -- Every spec has a range that is not empty, and the flags that are on keep to it.
  abbrev pub AllInside : FlagsDict K → List K → Type 0
  AllInside d [] = Unit
  AllInside d (spec ∷ specs) =
      (IsRange (lib.range_of spec) × IsOff (lib.range_of spec) (lookup spec d)) × AllInside d specs

  climb_children-bounds :
      (d : FlagsDict K) (specs : List K)
      → AllInside d specs
      → (ds : List (FlagsDict K)) × (climb_children lib dict_eq d specs ≡ ok ds)
        × (length ds ≤ 2 * length specs)
  unfolding climb_children
  climb_children-bounds d [] inside = ([], refl, omega arith)
  climb_children-bounds d (spec ∷ specs) ((range, off), inside) =
      let (here, p, _, low, high) = climb_next-AllNeighbours lib d spec range off in
      let (rest, q, more) = climb_children-bounds d specs inside in
      let both = length-append here rest in (here ++ rest, rw (p, q), omega arith)

  length-add_new :
      (cache : List (Task (FlagsDict K))) (ds : List (FlagsDict K))
      (tasks : List (Task (FlagsDict K)))
      → length (add_new lib dict_eq cache ds tasks) ≤ length tasks + length ds
  unfolding add_new
  length-add_new cache [] tasks = omega arith
  length-add_new cache (d ∷ ds) tasks =
      elim (Bool-cases (in_tasks lib dict_eq d cache || in_tasks lib dict_eq d tasks)) [
        | inl old ↦ let le = length-add_new cache ds tasks in rw old (omega arith)
        | inr new ↦
            let le = length-add_new cache ds (tasks ++ record { flags = d; cost = none } ∷ []) in
            let one = length-append tasks (record { flags = d; cost = none } ∷ []) in
            rw new (omega arith)
      ]

  -- Next of a hill-climbing generation, where the specs have ranges that are not empty and the flags
  -- of the best task keep to them, gives a generation with at most two tasks for each spec, and the
  -- best task as its one parent.
  pub climb_generation-bounds :
      (specs : List K) (cache : List (Task (FlagsDict K))) (task : Task (FlagsDict K))
      → AllInside task.flags specs
      → (g : Generation (FlagsDict K)) × (climb_generation lib dict_eq specs cache task ≡ ok g)
        × (g.pending ≤ 2 * length specs)
        × (g.candidate_pool ≡ task ∷ [])
  unfolding climb_generation
  climb_generation-bounds specs cache task inside =
      let (ds, p, few) = climb_children-bounds task.flags specs inside in
      let le = length-add_new cache ds [] in
      (new_generation (add_new lib dict_eq cache ds []) (task ∷ []), rw p, omega arith, refl)
