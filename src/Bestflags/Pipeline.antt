-- ===== src/Bestflags/Pipeline.antt =====
-- bestflags/pipeline_process.py and bestflags/pipeline_worker.py: one stage of the pipeline, whose process
-- hands tasks to workers and duplicates to a helper. A task, an identifier and a result are numbers;
-- `identifier` is GetIdentifier of the stage, which is taken not to raise. `work` gives the result of
-- Work, or none where it raises, and `done` tells which tasks come in with their result (Done). The
-- poison pills are left out.
pub mod Served
pub mod Sound
mod Tests
use external_toolchain_utils.Prelude.Dict.{lookup, insert}
use external_toolchain_utils.Prelude.{
  ℕ, ◌≡◌, Bool, true, false, Option, none, some, List, [], ◌∷◌, ◌++◌, ◌==◌, if◌then◌else◌, nat_eq,
  contains,
}

-- The queues with their first entry first. `working` has the tasks that have been handed to the pool,
-- and the results of a task in `result_queue` stand beside it.
pub record PipelineProcess : Type 0 where
  pub task_queue : List ℕ
  pub mycache : List ℕ
  pub helper_queue : List ℕ
  pub working : List ℕ
  pub completed_queue : List (ℕ × ℕ)
  pub done_dict : List (ℕ × ℕ)
  pub waiting_list : List ℕ
  pub result_queue : List (ℕ × ℕ)
  pub helper_ended : Bool

-- `[t for t in waiting_list if t.GetIdentifier(stage) == identifier]`, each with its result, and the
-- tasks that stay.
pub resolved : (ℕ → ℕ) → (id result : ℕ) → List ℕ → List (ℕ × ℕ)
resolved identifier id result [] = []
resolved identifier id result (t ∷ ts) =
    let rest = resolved identifier id result ts in
    if identifier t == id then (t, result) ∷ rest else rest

pub unresolved : (ℕ → ℕ) → (id : ℕ) → List ℕ → List ℕ
unresolved identifier id [] = []
unresolved identifier id (t ∷ ts) =
    let rest = unresolved identifier id ts in if identifier t == id then rest else t ∷ rest

module _ (identifier : ℕ → ℕ) (work : ℕ → Option ℕ) (done : ℕ → Bool) where
  -- The loop of PipelineProcess.run, for a task that has been taken from the queue.
  unfoldable pub dispatch : ℕ → PipelineProcess → PipelineProcess
  dispatch t s =
      if contains s.mycache (identifier t)
      then record s { helper_queue = s.helper_queue ++ t ∷ [] }
      else record s { working = s.working ++ t ∷ []; mycache = s.mycache ++ identifier t ∷ [] }

  -- What a worker has for a task: nothing where the assertion fails or Work raises.
  abbrev pub outcome : ℕ → Option ℕ
  outcome t = if done t then none else work t

  -- Worker, for a task of the pool that leaves the others. The pool drops an exception: apply_async
  -- keeps it in a result object that nobody asks.
  pub finish_work : ℕ → Option ℕ → List ℕ → PipelineProcess → PipelineProcess
  finish_work t none others s = record s { working = others }
  finish_work t (some result) others s = record s {
    working = others;
    completed_queue = s.completed_queue ++ (identifier t, result) ∷ [];
    result_queue = s.result_queue ++ (t, result) ∷ [];
  }

  abbrev pub perform : ℕ → List ℕ → PipelineProcess → PipelineProcess
  perform t others s = finish_work t (outcome t) others s

  -- The first part of the loop of Helper, for a task that has been taken from the queue. Its
  -- assertion ends the helper's process.
  pub place_duplicate : ℕ → Option ℕ → PipelineProcess → PipelineProcess
  place_duplicate t (some result) s = record s { result_queue = s.result_queue ++ (t, result) ∷ [] }
  place_duplicate t none s = record s { waiting_list = s.waiting_list ++ t ∷ [] }

  abbrev pub take_duplicate : ℕ → PipelineProcess → PipelineProcess
  take_duplicate t s =
      if done t
      then record s { helper_ended = true }
      else place_duplicate t (lookup (identifier t) s.done_dict) s

  -- GetResultFromCompletedQueue, for an entry that has been taken from the queue.
  abbrev pub take_completed : (id result : ℕ) → PipelineProcess → PipelineProcess
  take_completed id result s = record s {
    done_dict = insert id result s.done_dict;
    result_queue = s.result_queue ++ resolved identifier id result s.waiting_list;
    waiting_list = unresolved identifier id s.waiting_list;
  }

-- What the process, a worker or the helper does with the next entry of its queue.
pub data PipelineStep (identifier : ℕ → ℕ) (work : ℕ → Option ℕ) (done : ℕ → Bool)
    (s s' : PipelineProcess) : Type 0 where
  dispatch_step :
      (t : ℕ) (rest : List ℕ)
      → s.task_queue ≡ t ∷ rest
      → s' ≡ dispatch identifier work done t (record s { task_queue = rest })
      → PipelineStep identifier work done s s'
  work_step :
      (t : ℕ) (before after : List ℕ)
      → s.working ≡ before ++ t ∷ after
      → s' ≡ perform identifier work done t (before ++ after) s
      → PipelineStep identifier work done s s'
  duplicate_step :
      (t : ℕ) (rest : List ℕ)
      → s.helper_ended ≡ false
      → s.helper_queue ≡ t ∷ rest
      → s' ≡ take_duplicate identifier work done t (record s { helper_queue = rest })
      → PipelineStep identifier work done s s'
  completed_step :
      (id result : ℕ) (rest : List (ℕ × ℕ))
      → s.helper_ended ≡ false
      → s.completed_queue ≡ (id, result) ∷ rest
      → s' ≡ take_completed identifier work done id result (record s { completed_queue = rest })
      → PipelineStep identifier work done s s'

pub data PipelineSteps (identifier : ℕ → ℕ) (work : ℕ → Option ℕ) (done : ℕ → Bool)
    (s : PipelineProcess) : PipelineProcess → Type 0 where
  no_pipeline_steps : PipelineSteps identifier work done s s
  one_more_step :
      {t u : PipelineProcess}
      → PipelineSteps identifier work done s t
      → PipelineStep identifier work done t u
      → PipelineSteps identifier work done s u
