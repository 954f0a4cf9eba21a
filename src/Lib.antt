-- ===== src/Lib.antt =====
-- External toolchain utilities: a collection of Python programs around compilers and test machines. The
-- parts modelled here are the ones that decide something; running commands, reports and command lines
-- are left out. A file under a part's file holds its proofs, and the file `Tests` beside these holds examples.
--
-- - Bisect.Searcher (binary_search_tool/binary_search_perforce.py): BinarySearcher, which narrows a range
--   of revisions by the results of a test script, and the loop of Main that calls GetNext, runs the script
--   and calls SetStatus. GetNext is `get_next`, GetNextFlakyBinary is `get_next_flaky_binary`, SetStatus
--   is `set_status`, and the loop is `run_search` on the number of tries. The script is a function of
--   the revision and of the tries left.
-- - Bisect.SearchState (binary_search_tool/binary_search_state.py): the items that the switch scripts are
--   told to make good or bad, SwitchToGood and SwitchToBad, and GetNextItems, which uses the searcher;
--   DoVerify, DoBinarySearch and DoSearch are in its child Pruning.
-- - Crosperf.ImageManager (crosperf/machine_image_manager.py): which label is imaged onto which dut.
--   `compute_initial_allocation` is a backtracking search on a matrix, `allocate` a scan of a column.
-- - Crosperf.Scheduler (crosperf/schedv2.py): the threads that read the cache of results, each for a
--   segment of the benchmark runs, and the workers, one for each dut, that take runs from the scheduler.
--   _read_br_cache is `br_lists` with `ReadStep` in Readers, the constructor is `new_schedv2`; a
--   constructor of `SchedStep` in Workers is one call of a worker. It uses Crosperf.ImageManager.
-- - Automation.StateMachine (automation/common/state_machine.py, events.py, job.py, job_group.py): the states
--   of jobs and job groups, with the history of their changes.
-- - Automation.Machines (automation/common/machine.py, automation/server/machine_manager.py): the pool of
--   machines, of which GetMachines acquires several or none.
-- - Automation.Jobs (automation/server/job_manager.py, job_executer.py, automation/common/job.py): the queue of
--   the jobs that are ready, the executers that run jobs on machines of the pool, and what a finished job
--   sets going. AddJob is `add_job`, a round of the loop of run is `run_round`, NotifyJobComplete is
--   `notify`, _KillJob is `kill_job`. Jobs are objects that the manager, the executers and the groups share,
--   so they are numbers into the function `jobs`. The thread of an executer is in a `Phase`, and
--   a constructor of `Step` in Steps is what one thread does while it holds the lock, or one
--   change of a job's state; steps come in any order. A round that raises ends the
--   manager's thread, which `run_ended` tells, and the job that it had taken is then in no queue.
-- - Automation.Groups (automation/server/job_group_manager.py, automation/common/job_group.py): groups of
--   jobs on a job manager. AddJobGroup is `add_job_group`, NotifyJobComplete is `notify_group`; a
--   constructor of `GroupStep` in Finished is one of them or a step of the job manager.
-- - FileLock (file_lock_machine.py): shared and exclusive locks on a machine by a file, and the check
--   file that shows whether the process of an automatic lock lives. NonBlockingLock is
--   `non_blocking_lock`, Unlock is `unlock`, __enter__ is `enter`, TryLock is
--   `try_lock` in Waiting; a step of a process, or its end, is a constructor of `Step`.
-- - Bestflags.Flags (bestflags/flags.py, flags_util.py, iterative_elimination.py): flags and the neighbours of
--   a dictionary of flags, ClimbNext and _DecreaseFlag.
-- - Bestflags.Generation (bestflags/generation.py, hill_climb_best_neighbor.py, iterative_elimination.py,
--   task.py): the tasks of a generation, UpdateTask, IsImproved, and in Next the tasks of the
--   next generation. Where tasks are compared by identity, they are numbers, with what they hold
--   in a function.
-- - Bestflags.Pipeline (bestflags/pipeline_process.py, pipeline_worker.py): a stage that works on tasks, whose
--   duplicates wait in a helper for the result. The loop of run is `dispatch`, Worker is `perform`,
--   Helper is `take_duplicate`, GetResultFromCompletedQueue is `take_completed`; a constructor of
--   `PipelineStep` is one of them on the next entry of its queue. A worker that raises gives no
--   result, and a helper that raises takes no step any more.
-- - Prelude: names of the libraries, tests on numbers, lists, dictionaries as association lists, and
--   `Result` for calls that may raise.
--
-- State is passed explicitly: an operation takes the object and returns the new one, with what the
-- method returns. Python's integers are natural numbers where they are indices, counts, costs or times;
-- `/` on them rounds down, as in Python 2. The two loops of GetNextFlakyBinary and GetNextFlakyLinear run
-- on fuel, which is a bound on the queue and on the moves of the two pointers; `no_fuel` would tell that
-- it is spent. The loop of TryLock runs on fuel too, one for each attempt. The other
-- loops recurse on a list or on a number of tries, rounds or levels.
--
-- Parameters stand for what is not in the repository: Python's `fnmatch`, `re` and `random`, the test
-- script of a bisection, and the equality of dictionaries in FlagSets. Of `fcntl.lockf` the model has the documented
-- behaviour, that a lock has at most one process and goes when the process ends.
--
-- Not modelled: logging, files and processes; the version-control classes of the bisection; the
-- commands that an executer runs; the saved files of the bisection
-- tool (binary_search_tool/binary_search_state.py), the running of benchmarks and the experiment files of crosperf,
-- the steering of bestflags; tables and statistics in floating point; scripts that run
-- commands; copies of other projects' libraries (cros_utils/stats.py, cros_utils/pstat.py).
pub mod Prelude
pub mod Bisect
pub mod Crosperf
pub mod Automation
pub mod Bestflags
pub mod FileLock
