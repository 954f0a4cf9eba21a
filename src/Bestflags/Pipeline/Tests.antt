-- ===== src/Bestflags/Pipeline/Tests.antt =====
-- Two tasks with the same identifier: the second waits for the result of the first, which in one run
-- never comes.
use external_toolchain_utils.Bestflags.Pipeline.Sound.{PipelineSteps-IsSound, IsSound}
use external_toolchain_utils.Bestflags.Pipeline.Served.{waiting_list-HasFailed, HasFailed}
use external_toolchain_utils.Bestflags.Pipeline.{
  PipelineSteps, unresolved, resolved, place_duplicate, perform, finish_work, take_duplicate,
  take_completed, PipelineProcess, dispatch, dispatch_step, work_step, duplicate_step,
  completed_step, no_pipeline_steps, one_more_step,
}
use external_toolchain_utils.Prelude.Dict.{lookup, insert}
use external_toolchain_utils.Prelude.Equality.{contains-nil, contains-cons_self}
use external_toolchain_utils.Prelude.{
  ℕ, ◌+◌, ◌≡◌, refl, Bool, false, Option, none, some, [], ◌∷◌, true-false, nat_eq, contains,
}

abbrev same_id : ℕ → ℕ
same_id t = 5

abbrev cost : ℕ → Option ℕ
cost t = some (t + 100)

abbrev broken : ℕ → Option ℕ
broken t = none

abbrev never_done : ℕ → Bool
never_done t = false

abbrev start : PipelineProcess
start = record {
  task_queue = 1 ∷ 2 ∷ [];
  mycache = [];
  helper_queue = [];
  working = [];
  completed_queue = [];
  done_dict = [];
  waiting_list = [];
  result_queue = [];
  helper_ended = false;
}

abbrev sent : PipelineProcess
sent = dispatch same_id cost never_done 1 (record start { task_queue = 2 ∷ [] })

abbrev both_sent : PipelineProcess
both_sent = dispatch same_id cost never_done 2 (record sent { task_queue = [] })

abbrev waited : PipelineProcess
waited = take_duplicate same_id cost never_done 2 (record both_sent { helper_queue = [] })

abbrev worked : PipelineProcess
worked = perform same_id cost never_done 1 [] waited

abbrev ended : PipelineProcess
ended = take_completed same_id cost never_done 5 101 (record worked { completed_queue = [] })

run_to_ended : PipelineSteps same_id cost never_done start ended
unfolding dispatch contains lookup insert place_duplicate finish_work resolved unresolved
run_to_ended =
    one_more_step
      (one_more_step
        (one_more_step
          (one_more_step (one_more_step no_pipeline_steps (dispatch_step 1 (2 ∷ []) refl refl))
            (dispatch_step 2 [] refl refl))
          (duplicate_step 2 [] refl refl refl))
        (work_step 1 [] [] refl refl))
      (completed_step 5 101 [] refl refl refl)

nothing : {r : ℕ} (id : ℕ) → lookup id [] ≡ some r → ⊥
unfolding lookup
nothing id e = cc

PipelineSteps-IsSound_example : IsSound same_id cost never_done ended
PipelineSteps-IsSound_example =
    PipelineSteps-IsSound same_id cost never_done start ended run_to_ended
      (record { results = tt; completed = tt; dones = λ id r e. absurd (nothing id e) })

-- The worker raises on the first task.
abbrev stuck : PipelineProcess
stuck = record start { task_queue = []; mycache = 5 ∷ []; waiting_list = 2 ∷ [] }

run_to_stuck : PipelineSteps same_id broken never_done start stuck
unfolding dispatch contains lookup place_duplicate finish_work
run_to_stuck =
    one_more_step
      (one_more_step
        (one_more_step (one_more_step no_pipeline_steps (dispatch_step 1 (2 ∷ []) refl refl))
          (dispatch_step 2 [] refl refl))
        (duplicate_step 2 [] refl refl refl))
      (work_step 1 [] [] refl refl)

waiting_list-HasFailed_example : HasFailed same_id broken never_done (1 ∷ 2 ∷ []) 2
waiting_list-HasFailed_example =
    waiting_list-HasFailed same_id broken never_done (1 ∷ 2 ∷ []) start stuck
      (record {
        known = λ id e. absurd (true-false e (contains-nil id));
        queued = λ t e. e;
        pooled = λ t e. absurd (true-false e (contains-nil t));
        helped = λ t e. absurd (true-false e (contains-nil t));
        waits = λ t e. absurd (true-false e (contains-nil t));
      })
      run_to_stuck refl refl 2 (contains-cons_self 2 [])
