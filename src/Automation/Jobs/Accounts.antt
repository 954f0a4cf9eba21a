-- ===== src/Automation/Jobs/Accounts.antt =====
-- The machines of a job manager's pool, and the executers that use them.
pub mod Rounds
pub mod Threads
pub mod Ends
use mathlib.Core.Path.{subst}
use external_toolchain_utils.Prelude.Count.{count_of}
use external_toolchain_utils.Automation.Machines.{uses_at}
use external_toolchain_utils.Prelude.{
  ℕ, zero, suc, ◌+◌, ◌≤◌, ◌<◌, ◌≡◌, sym, ◌∙◌, ◌≢◌, inl, inr, some, List, [], ◌∷◌, ◌++◌, arith,
  length, get_elem?, set, get_elem?-set_self, get_elem?-set_ne, nat_eq, Eq-cases,
}
use Prim.Native.String.{String}
use external_toolchain_utils.Automation.StateMachine.{
  job_status_eq, not_executed, setup, copying, running, succeeded, failed,
}
use external_toolchain_utils.Automation.Jobs.{
  Job, Phase, JobExecuter, JobManager, starting, working, finished, notified, crashed, status,
  set_status,
}

-- An executer has its machines until the manager is notified.
abbrev pub share : ℕ → Phase → List ℕ → ℕ
share k notified machines = 0
share k starting machines = count_of k machines
share k working machines = count_of k machines
share k finished machines = count_of k machines
share k crashed machines = count_of k machines

abbrev pub held : ℕ → List JobExecuter → ℕ
held k [] = 0
held k (x ∷ xs) = share k x.phase x.machines + held k xs

pub held-set :
    (k : ℕ) (xs : List JobExecuter) (i : ℕ) (x y : JobExecuter)
    → get_elem? xs i ≡ some x
    → held k (set xs i y) + share k x.phase x.machines ≡ held k xs + share k y.phase y.machines
held-set k [] i x y e = absurd (cc)
held-set k (z ∷ zs) zero x y e = let same : z ≡ x = cc in rw same (omega arith)
held-set k (z ∷ zs) (suc i) x y e = let h = held-set k zs i x y e in omega arith

pub held-append :
    (k : ℕ) (xs : List JobExecuter) (x : JobExecuter)
    → held k (xs ++ x ∷ []) ≡ held k xs + share k x.phase x.machines
held-append k [] x = omega arith
held-append k (z ∷ zs) x = let h = held-append k zs x in omega arith

pub share-le-held :
    (k : ℕ) (xs : List JobExecuter) (i : ℕ) (x : JobExecuter)
    → get_elem? xs i ≡ some x
    → share k x.phase x.machines ≤ held k xs
share-le-held k [] i x e = absurd (cc)
share-le-held k (z ∷ zs) zero x e = let same : z ≡ x = cc in rw same (omega arith)
share-le-held k (z ∷ zs) (suc i) x e = let h = share-le-held k zs i x e in omega arith

-- In its `try` block and after it, an executer's machines are those of its job.
abbrev pub Owns : Phase → (ℕ → Job) → ℕ → List ℕ → Type 0
Owns working jobs j machines =
    ((jobs j).machines ≡ machines) × ((jobs j).state.state ≢ not_executed)
Owns finished jobs j machines =
    ((jobs j).machines ≡ machines) × ((jobs j).state.state ≢ not_executed)
Owns starting jobs j machines = Unit
Owns notified jobs j machines = Unit
Owns crashed jobs j machines = Unit

-- The uses of each machine are those of `base` and one for each executer that has it.
pub record IsAccounted (base : ℕ → ℕ) (s : JobManager) : Type 0 where
  pub uses : (k : ℕ) → uses_at s.pool k ≡ base k + held k s.executers
  pub owns :
      (i : ℕ) (x : JobExecuter)
      → get_elem? s.executers i ≡ some x
      → Owns x.phase s.jobs x.job x.machines

-- A job keeps its machines, and does not go back to its first state.
abbrev pub Keeps : (ℕ → Job) → (ℕ → Job) → ℕ → Type 0
Keeps jobs jobs' j =
    ((jobs' j).machines ≡ (jobs j).machines)
    × ((jobs j).state.state ≢ not_executed → (jobs' j).state.state ≢ not_executed)

pub Owns-Keeps :
    (phase : Phase) (jobs jobs' : ℕ → Job) (j : ℕ) (machines : List ℕ)
    → Keeps jobs jobs' j
    → Owns phase jobs j machines
    → Owns phase jobs' j machines
Owns-Keeps starting jobs jobs' j machines keeps owns = tt
Owns-Keeps working jobs jobs' j machines (same, on) (has, ne) = (same ∙ has, on ne)
Owns-Keeps finished jobs jobs' j machines (same, on) (has, ne) = (same ∙ has, on ne)
Owns-Keeps notified jobs jobs' j machines keeps owns = tt
Owns-Keeps crashed jobs jobs' j machines keeps owns = tt

-- The executer at one index is replaced.
pub Owns-set :
    (s s' : JobManager) (i : ℕ) (y : JobExecuter)
    → s'.executers ≡ set s.executers i y
    → i < length s.executers
    → ((n : ℕ) (x : JobExecuter)
        → get_elem? s.executers n ≡ some x
        → Owns x.phase s'.jobs x.job x.machines)
    → Owns y.phase s'.jobs y.job y.machines
    → (n : ℕ) (x : JobExecuter) → get_elem? s'.executers n ≡ some x
    → Owns x.phase s'.jobs x.job x.machines
Owns-set s s' i y e inside others here n x at = elim (Eq-cases i n) [
  | inl same ↦
      let p = get_elem?-set_self s.executers i y inside in
      let q : y ≡ x =
        (let r : get_elem? (set s.executers i y) i ≡ some x = rw (sym e, same) at in cc) in
      subst (λ z. Owns z.phase s'.jobs z.job z.machines) q here
  | inr ne ↦ others n x (sym (get_elem?-set_ne s.executers y ne) ∙ rw e at at)
]
