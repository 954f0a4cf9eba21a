-- ===== src/Bestflags/Generation.antt =====
-- generation.py, with IsImproved of hill_climb_best_neighbor.py and of iterative_elimination.py and the
-- comparison of tasks in task.py. `F` is FlagSet up to its `__eq__`, by which tasks are equal (`==` and
-- `in`); a set of tasks is a list, to which `add` appends. Where the code tests for the same object, a
-- task is a number, its object. A cost is a natural number.
pub mod Update
pub mod Best
pub mod Worst
pub mod Next
pub mod Children
mod Tests
use external_toolchain_utils.Prelude.{
  ℕ, ◌-◌, Bool, true, false, ◌&&◌, Option, none, some, List, [], ◌∷◌, ◌++◌, length, Result, ◌>>=◌,
  ◌>>◌, assert, ltb, ◌==◌, if◌then◌else◌, assertion_error, ok, err, Eq, nat_eq, ◌≟◌,
}

-- `_flag_set` and `_exe_cost`.
pub record Task (F : Type 0) : Type 0 where
  pub flags : F
  pub cost : Option ℕ

pub record Generation (F : Type 0) : Type 0 where
  pub exe_set : List (Task F)
  pub candidate_pool : List (Task F)
  pub pending : ℕ

abbrev pub new_generation : {F : Type 0} → List (Task F) → List (Task F) → Generation F
new_generation exe_set candidate_pool = record {
  exe_set = exe_set;
  candidate_pool = candidate_pool;
  pending = length exe_set;
}

abbrev pub is_done : {F : Type 0} → Generation F → Bool
is_done g = g.pending == 0

-- Task.IsImproved
unfoldable pub compare_costs : Option ℕ → Option ℕ → Result Bool
compare_costs (some a) (some b) = ok (ltb a b)
compare_costs _ _ = err assertion_error

abbrev pub is_improved : {F : Type 0} → Task F → Task F → Result Bool
is_improved task other = compare_costs task.cost other.cost

module _ {F : Type 0} ⦃e : Eq F⦄ where
  -- `task in self._exe_set`
  unfoldable pub has_task : List (Task F) → F → Bool
  has_task [] f = false
  has_task (t ∷ ts) f = if f ≟ t.flags then true else has_task ts f

  -- `self._exe_set.remove(task)`
  unfoldable pub remove_task : List (Task F) → F → List (Task F)
  remove_task [] f = []
  remove_task (t ∷ ts) f = let rest = remove_task ts f in if f ≟ t.flags then ts else t ∷ rest

  -- UpdateTask, with whether the task belongs to the generation.
  unfoldable pub update_task : Task F → Generation F → Result (Bool × Generation F)
  unfolding has_task remove_task
  update_task task g =
      if has_task g.exe_set task.flags
      then (do
        assert (ltb 0 g.pending)
        ok (
          true,
          record g {
            exe_set = remove_task g.exe_set task.flags ++ task ∷ [];
            pending = g.pending - 1;
          },
        ))
      else ok (false, g)

  -- One call of UpdateTask for each task whose result arrives.
  pub update_each : List (Task F) → Generation F → Result (Bool × Generation F)
  update_each [] g = ok (true, g)
  update_each (t ∷ ts) g = do
    (found, g') ← update_task t g
    (all_found, g'') ← update_each ts g'
    ok (found && all_found, g'')

  -- The loop of HillClimbingBestBranch.IsImproved.
  pub best_from : Option (Task F) → List (Task F) → Result (Option (Task F))
  best_from best [] = ok best
  best_from none (t ∷ ts) = best_from (some t) ts
  best_from (some best) (t ∷ ts) = do
    better ← is_improved t best
    best_from (some (if better then t else best)) ts

  -- The end of it: `_next_task`, where it is set, and the value returned.
  pub judge_best : Option (Task F) → List (Task F) → Result (Option (Task F) × Bool)
  judge_best none parents = ok (none, false)
  judge_best (some best) [] = ok (some best, true)
  judge_best (some best) (parent ∷ []) = do better ← is_improved best parent; ok (some best, better)
  judge_best (some best) (p ∷ q ∷ parents) = err assertion_error

  unfoldable pub climb_is_improved : Generation F → Result (Option (Task F) × Bool)
  climb_is_improved g = do best ← best_from none g.exe_set; judge_best best g.candidate_pool

-- Tasks that are objects: `tasks` has what each of them holds. `!=` on tasks compares the objects, since
-- Task has an `__eq__` and no `__ne__`.
module _ {F : Type 0} (tasks : ℕ → Task F) where
  -- IterativeEliminationGeneration.IsImproved
  unfoldable pub any_improved : ℕ → List ℕ → Result Bool
  any_improved parent [] = ok false
  any_improved parent (t ∷ ts) =
      let rest = any_improved parent ts in
      if t == parent
      then rest
      else (is_improved (tasks t) (tasks parent) >>= λ better. if better then ok true else rest)

  -- The worst task of IterativeEliminationGeneration.Next.
  pub worst_from : ℕ → ℕ → List ℕ → Result ℕ
  worst_from parent worst [] = ok worst
  worst_from parent worst (t ∷ ts) = if t == parent then worst_from parent worst ts else do
    better ← is_improved (tasks t) (tasks worst)
    worst_from parent (if better then t else worst) ts
