-- ===== src/Crosperf/Scheduler/Tests.antt =====
-- Two benchmark runs of one label, of which the first has a cache hit, and one dut.
use external_toolchain_utils.Crosperf.Scheduler.Segments.{
  br_lists-AllAtMost, AllAtMost, concat-br_lists, concat,
}
use external_toolchain_utils.Crosperf.Scheduler.Once.{given_once}
use external_toolchain_utils.Crosperf.Scheduler.{
  pop_first, get_for_label, benchmarkruns_per_thread, empty_lists, get_cached_benchmark_run,
  fill_map, get_benchmark_run, set_dut_label, new_schedv2, Schedv2, br_lists,
}
use external_toolchain_utils.Crosperf.Scheduler.Readers.{
  ReadSteps, ReadSteps-filter, read_step, nothing_read, one_more_read,
}
use external_toolchain_utils.Crosperf.Scheduler.Workers.{
  SchedSteps, left, no_calls, one_call, cached_step, run_step, reimage_step,
}
use external_toolchain_utils.Crosperf.ImageManager.{
  incompatible, ImageManager, new_manager, initial_rows, initial_row,
}
use external_toolchain_utils.Prelude.{
  ℕ, ◌+◌, ◌≤◌, ◌≡◌, refl, Bool, false, none, some, List, [], ◌∷◌, arith, count_of, length, filter,
  Result, ◌==◌, ok, err, nat_eq, contains,
}

abbrev five : List ℕ
five = 1 ∷ 2 ∷ 3 ∷ 4 ∷ 5 ∷ []

concat-br_lists_example : concat (br_lists five) ≡ five
concat-br_lists_example = concat-br_lists five

br_lists-AllAtMost_example :
    (2 ≤ length (br_lists five))
    × (length (br_lists five) ≤ 20)
    × AllAtMost (benchmarkruns_per_thread (length five)) (br_lists five)
br_lists-AllAtMost_example = br_lists-AllAtMost five (omega arith)

abbrev two : List ℕ
two = 1 ∷ 2 ∷ []

abbrev first_hits : ℕ → Bool
first_hits br = br == 1

reading : ReadSteps first_hits (br_lists two) [] ([] ∷ []) (1 ∷ [])
unfolding br_lists
reading =
    one_more_read (one_more_read nothing_read (read_step 0 1 (2 ∷ []) refl refl refl))
      (read_step 0 2 [] refl refl refl)

ReadSteps-filter_example : count_of 1 (1 ∷ []) ≡ count_of 1 (filter first_hits two)
ReadSteps-filter_example = ReadSteps-filter first_hits two ([] ∷ []) (1 ∷ []) reading (refl, tt) 1

abbrev one_label : ℕ → ℕ
one_label br = 0

-- The scheduler that a call leads to.
abbrev after : {A : Type 0} → Result A → A → A
after (ok s') s = s'
after (err e) s = s

abbrev no_manager : ImageManager ℕ
no_manager = record {
  n_labels = 0;
  n_duts = 0;
  dut_names = [];
  matrix = λ i j. incompatible;
  label_duts = λ i. [];
  allocate_log = [];
}

abbrev new_sched : Schedv2
new_sched = after (new_schedv2 one_label ([] ∷ []) (7 ∷ []) two (1 ∷ [])) (record {
  label_of = one_label;
  cached_br_list = [];
  label_brl_map = [];
  dut_label = λ d. none;
  manager = no_manager;
  active_workers = [];
  finished_workers = [];
  terminated = false;
})

new_schedv2-new_sched : new_schedv2 one_label ([] ∷ []) (7 ∷ []) two (1 ∷ []) ≡ ok new_sched
unfolding new_schedv2 fill_map empty_lists new_manager initial_rows initial_row contains
new_schedv2-new_sched = refl

abbrev cached_done : Schedv2
cached_done = (get_cached_benchmark_run new_sched).0

abbrev labelled : Schedv2
labelled = set_dut_label 7 (some 0) cached_done

abbrev all_done : Schedv2
all_done = (after (get_benchmark_run 7 labelled) (labelled, none)).0

calls : SchedSteps new_sched (2 ∷ 1 ∷ []) all_done
unfolding new_schedv2 fill_map empty_lists new_manager initial_rows initial_row contains
    get_benchmark_run get_for_label pop_first
calls =
    one_call {given = some 2}
      (one_call {given = none} (one_call {given = some 1} no_calls (cached_step refl))
        (reimage_step 7 (some 0) refl refl))
      (run_step 7 refl)

given_once_example : left 2 all_done + count_of 2 (2 ∷ 1 ∷ []) ≡ count_of 2 two
given_once_example =
    given_once first_hits two ([] ∷ []) (1 ∷ []) reading (refl, tt) one_label ([] ∷ []) (7 ∷ [])
      new_sched new_schedv2-new_sched (2 ∷ 1 ∷ []) all_done calls 2
