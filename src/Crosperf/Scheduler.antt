-- ===== src/Crosperf/Scheduler.antt =====
-- crosperf/schedv2.py: which thread gets which benchmark run. A benchmark run, a label and a dut are
-- numbers; `label_of` is the field `label` of a run. A method that holds a lock is one step. Running
-- the benchmarks, reimaging and the logger are left out.
pub mod Segments
pub mod Readers
pub mod Workers
pub mod Once
mod Tests
use external_toolchain_utils.Prelude.{
  ℕ, zero, suc, ◌+◌, ◌-◌, ◌*◌, ◌/◌, min, max, Bool, true, false, Option, none, some, List, [], ◌∷◌,
  ◌++◌, length, get_elem?, set, take, drop, Result, ◌>>=◌, ◌>>◌, some_or_raise, leb, ◌==◌,
  if◌then◌else◌, assertion_error, value_error, key_error, ok, err, nat_eq, contains,
}
use external_toolchain_utils.Crosperf.ImageManager.{
  ImageManager, allocate, new_manager, compute_initial_allocation,
}

-- `xs[start:end]`
abbrev pub slice {ℓ} : {A : Type ℓ} → List A → ℕ → ℕ → List A
slice xs start end_ = take (end_ - start) (drop start xs)

-- The number of threads for `n` benchmark runs, and the number of runs for each.
abbrev pub n_threads : ℕ → ℕ
n_threads n = max 2 (min 20 ((n + 3) / 4))

abbrev pub benchmarkruns_per_thread : ℕ → ℕ
benchmarkruns_per_thread n = (n + n_threads n - 1) / n_threads n

-- The loop over `range(n_threads - 1)` from `i` on, and the segment after it.
pub segments_from : (rounds i per_thread : ℕ) → List ℕ → List (List ℕ)
segments_from zero i per_thread brs = drop (i * per_thread) brs ∷ []
segments_from (suc rounds) i per_thread brs =
    slice brs (i * per_thread) ((i + 1) * per_thread) ∷ segments_from rounds (i + 1) per_thread brs

-- The lists of the cache readers that _read_br_cache makes; one reader for all if there are few runs. The
-- assertion on the sum of their lengths is left out.
unfoldable pub br_lists : List ℕ → List (List ℕ)
unfolding segments_from
br_lists brs =
    if leb (length brs) 4
    then brs ∷ []
    else segments_from (n_threads (length brs) - 1) 0 (benchmarkruns_per_thread (length brs)) brs

-- One round of BenchmarkRunCacheReader.run: the cache is read for a run, which is appended in case of a
-- hit. `hit` is false also where ReadCache raises a RuntimeError. The list is kept last first.
abbrev pub read_br : (ℕ → Bool) → ℕ → List ℕ → List ℕ
read_br hit br cached = if hit br then br ∷ cached else cached

pub record Schedv2 : Type 0 where
  pub label_of : ℕ → ℕ
  pub cached_br_list : List ℕ
  pub label_brl_map : List (List ℕ)
  pub dut_label : ℕ → Option ℕ
  pub manager : ImageManager ℕ
  pub active_workers : List ℕ
  pub finished_workers : List ℕ
  pub terminated : Bool

module _ (label_of : ℕ → ℕ) where
  -- The loop of the constructor: a run with no cache hit goes to the list of its label.
  pub fill_map : List ℕ → List ℕ → List (List ℕ) → Result (List (List ℕ))
  fill_map cached [] brl_map = ok brl_map
  fill_map cached (br ∷ brs) brl_map = do
    brl ← some_or_raise assertion_error (get_elem? brl_map (label_of br))
    let brl_map' =
        if contains cached br then brl_map else set brl_map (label_of br) (brl ++ br ∷ [])
    fill_map cached brs brl_map'

pub empty_lists {ℓ} : {A : Type ℓ} → List A → List (List ℕ)
empty_lists [] = []
empty_lists (a ∷ rest) = [] ∷ empty_lists rest

-- The constructor, after the cache has been read. `remotes` are those of the labels.
unfoldable pub new_schedv2 :
    (ℕ → ℕ) → List (List ℕ) → (duts : List ℕ) → (brs cached : List ℕ) → Result Schedv2
unfolding fill_map empty_lists
new_schedv2 label_of remotes duts brs cached = do
  brl_map ← fill_map label_of cached brs (empty_lists remotes)
  manager ← new_manager remotes duts
  ok (record {
    label_of = label_of;
    cached_br_list = cached;
    label_brl_map = brl_map;
    dut_label = λ d. none;
    manager = (compute_initial_allocation manager).0;
    active_workers = duts;
    finished_workers = [];
    terminated = false;
  })

-- `self._cached_br_list.pop()`, where there is one.
abbrev pub pop_cached : List ℕ → Schedv2 → Schedv2 × Option ℕ
pop_cached [] s = (s, none)
pop_cached (br ∷ brs) s = (record s { cached_br_list = brs }, some br)

abbrev pub get_cached_benchmark_run : Schedv2 → Schedv2 × Option ℕ
get_cached_benchmark_run s = pop_cached s.cached_br_list s

-- `brl.pop(0)`, where there is one.
pub pop_first : ℕ → List ℕ → Schedv2 → Schedv2 × Option ℕ
pop_first l [] s = (s, none)
pop_first l (br ∷ brs) s = (record s { label_brl_map = set s.label_brl_map l brs }, some br)

pub get_for_label : Option ℕ → Schedv2 → Result (Schedv2 × Option ℕ)
get_for_label none s = ok (s, none)
get_for_label (some l) s = do
  brl ← some_or_raise key_error (get_elem? s.label_brl_map l)
  ok (pop_first l brl s)

unfoldable pub get_benchmark_run : ℕ → Schedv2 → Result (Schedv2 × Option ℕ)
unfolding get_for_label pop_first
get_benchmark_run d s = if s.terminated then ok (s, none) else get_for_label (s.dut_label d) s

-- The runs that wait for each label, which MachineImageManager asks for.
abbrev pub pending_runs : Schedv2 → ℕ → ℕ
pending_runs s l = elim (get_elem? s.label_brl_map l) [ none ↦ 0 | some brl ↦ length brl ]

unfoldable pub allocate_label : ℕ → Schedv2 → Result (Schedv2 × Option ℕ)
allocate_label d s =
    let answer = (do
      (manager, label) ← allocate (some (pending_runs s)) d s.manager
      ok (record s { manager = manager }, label)) in
    if s.terminated then ok (s, none) else answer

-- `self._dut.label = label`
abbrev pub set_dut_label : ℕ → Option ℕ → Schedv2 → Schedv2
set_dut_label d label s = record s { dut_label = λ i. if i == d then label else s.dut_label i }

-- `list.remove`
pub remove_first : ℕ → List ℕ → Result (List ℕ)
remove_first d [] = err value_error
remove_first d (i ∷ is) =
    let rest = remove_first d is in if i == d then ok is else (rest >>= λ others. ok (i ∷ others))

unfoldable pub dut_worker_finished : ℕ → Schedv2 → Result Schedv2
unfolding remove_first
dut_worker_finished d s = do
  others ← remove_first d s.active_workers
  ok (record s { active_workers = others; finished_workers = s.finished_workers ++ d ∷ [] })

abbrev pub is_complete : Schedv2 → Bool
is_complete s = length s.active_workers == 0

-- Schedv2.terminate, without the flags of the workers.
abbrev pub terminate : Schedv2 → Schedv2
terminate s = record s { terminated = true }
