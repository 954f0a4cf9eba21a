-- ===== src/Automation/Jobs/Accounts/Ends.antt =====
-- The end of an executer, and the calls that kill executers and forget them: the accounts of the machines.
use external_toolchain_utils.Automation.Jobs.Steps.{kill_jobs-keeps, notify-ok}
use external_toolchain_utils.Automation.Jobs.Accounts.Threads.{get_elem?-some-lt}
use external_toolchain_utils.Prelude.Count.{count_of}
use external_toolchain_utils.Automation.Machines.Uses.{return_machines_lem}
use external_toolchain_utils.Automation.Machines.{uses_at}
use external_toolchain_utils.Automation.Jobs.Accounts.{
  share-le-held, Owns, Owns-set, held-set, IsAccounted,
}
use mathlib.Core.Path.{subst}
use external_toolchain_utils.Prelude.Equality.{nat_eq}
use external_toolchain_utils.Automation.Jobs.Accounts.{share}
use external_toolchain_utils.Prelude.Dict.{lookup}
use external_toolchain_utils.Automation.Jobs.{
  stop, notify, remove_ready, kill_executer, JobManager, clean_up_job, kill_job, JobExecuter,
  finished, notified, set_phase,
}
use external_toolchain_utils.Prelude.{
  ℕ, ◌+◌, ◌≡◌, refl, true, Option, none, some, arith, get_elem?, set, ok,
}

module _ (base : ℕ → ℕ) where
  -- The manager is notified of a job: its machines can be given back.
  pub notify_lem :
      (i : ℕ) (x : JobExecuter) (s : JobManager)
      → get_elem? s.executers i ≡ some x
      → x.phase ≡ finished
      → IsAccounted base s
      → (s' : JobManager) × (notify i x s ≡ ok s')
        × IsAccounted base s'
        × ((k : ℕ) → uses_at s'.pool k + count_of k x.machines ≡ uses_at s.pool k)
  notify_lem i x s at phase h =
      let (has, ne) = subst (λ p. Owns p s.jobs x.job x.machines) phase (h.owns i x at) in
      let (pool, returned, back) = return_machines_lem x.machines s.pool (λ k.
        let u = h.uses k in
        let l = share-le-held k s.executers i x at in
        let e : share k x.phase x.machines ≡ count_of k x.machines = rw phase in omega arith) in
      let (ready, done) = notify-ok i x s pool (rw has returned) in
      (
        set_phase i x notified (record s { pool = pool; ready_jobs = ready }),
        done,
        record {
          uses = λ k.
              let u = h.uses k in
              let b = back k in
              let e : share k x.phase x.machines ≡ count_of k x.machines = rw phase in
              let w = held-set k s.executers i x (record x { phase = notified }) at in omega arith;
          owns =
              Owns-set s (set_phase i x notified (record s { pool = pool; ready_jobs = ready })) i
                (record x { phase = notified }) refl (get_elem?-some-lt s.executers i x at) h.owns
                tt;
        },
        back,
      )

  pub kill_job-IsAccounted :
      (id : ℕ) (s : JobManager) → IsAccounted base s → IsAccounted base (kill_job id s)
  unfolding kill_job kill_executer
  kill_job-IsAccounted id s h = go (lookup id s.job_executer_mapping)
    where
      found :
          (i : ℕ)
          → (o : Option JobExecuter) → get_elem? s.executers i ≡ o
          → IsAccounted base (record s {
            executers = elim o [
              | none ↦ s.executers
              | some x ↦ set s.executers i (record x { killed = true })
            ];
            ready_jobs = remove_ready s id s.ready_jobs;
          })
      found i none at = record { uses = h.uses; owns = h.owns }
      found i (some x) at = record {
        uses = λ k.
            let u = h.uses k in
            let w = held-set k s.executers i x (record x { killed = true }) at in omega arith;
        owns =
            Owns-set s (record s { executers = set s.executers i (record x { killed = true }) }) i
              (record x { killed = true }) refl (get_elem?-some-lt s.executers i x at) h.owns
              (h.owns i x at);
      }

      go :
          (o : Option ℕ)
          → IsAccounted base (record s {
            executers = kill_executer o s.executers;
            ready_jobs = remove_ready s id s.ready_jobs;
          })
      go none = record { uses = h.uses; owns = h.owns }
      go (some i) = found i (get_elem? s.executers i) refl

  pub clean_up_job-IsAccounted :
      (j : ℕ) (s : JobManager) → IsAccounted base s → IsAccounted base (clean_up_job j s)
  unfolding clean_up_job
  clean_up_job-IsAccounted j s h = record { uses = h.uses; owns = h.owns }

  pub stop-IsAccounted : (s : JobManager) → IsAccounted base s → IsAccounted base (stop s)
  unfolding stop
  stop-IsAccounted s h =
      let k = kill_jobs-keeps (IsAccounted base) kill_job-IsAccounted s.all_jobs s h in
      record { uses = k.uses; owns = k.owns }
