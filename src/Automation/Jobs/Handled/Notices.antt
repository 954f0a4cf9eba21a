-- ===== src/Automation/Jobs/Handled/Notices.antt =====
-- Ready jobs when the manager is notified of a job.
use external_toolchain_utils.Automation.Machines.{Pool}
use external_toolchain_utils.Automation.Jobs.Accounts.Threads.{get_elem?-some-lt}
use external_toolchain_utils.Prelude.{
  ℕ, ◌≡◌, refl, sym, ap, ◌∙◌, ◌⊎◌, inl, inr, Bool, true, false, not, ◌&&◌, some, List, [], ◌∷◌,
  get_elem?, set, get_elem?-set_self, get_elem?-set_ne, ok_injective, if◌then◌else◌, true-false, ok,
  nat_eq, ◌≟◌, contains, Eq-cases,
}
use external_toolchain_utils.Prelude.Equality.{
  contains-cons, contains-cons_self, contains-cons_of, contains-nil,
}
use external_toolchain_utils.Automation.StateMachine.{job_status_eq, succeeded}
use external_toolchain_utils.Automation.Jobs.{
  notify, set_phase, is_ready, JobManager, JobExecuter, queue_successors, status, notified,
}
use external_toolchain_utils.Automation.Jobs.Steps.{notify_parts, notify-ok}
use external_toolchain_utils.Automation.Jobs.Effects.{IsReady}
use external_toolchain_utils.Automation.Jobs.Handled.Queue.{
  IsHandled, IsComplete, is_queued, is_started, is_pending,
}
use mathlib.Core.Path.{subst}

-- NotifyJobComplete queues the successors that are ready, and takes none from the queue.
queue_successors-keeps :
    (js : List ℕ) (s : JobManager) (k : ℕ)
    → contains s.ready_jobs k ≡ true
    → contains (queue_successors js s).ready_jobs k ≡ true
unfolding queue_successors
queue_successors-keeps [] s k h = h
queue_successors-keeps (j ∷ js) s k h =
    go (λ t. queue_successors-keeps js t k) (is_ready s j && not (contains s.ready_jobs j))
  where
    go :
        ((t : JobManager)
          → contains t.ready_jobs k ≡ true
          → contains (queue_successors js t).ready_jobs k ≡ true)
        → (queued : Bool)
        → contains
            (queue_successors js
              (if queued then record s { ready_jobs = j ∷ s.ready_jobs } else s)).ready_jobs
            k
          ≡ true
    go again false = again s h
    go again true =
        again (record s { ready_jobs = j ∷ s.ready_jobs }) (contains-cons_of j s.ready_jobs k h)

queue_successors-queues :
    (js : List ℕ) (s : JobManager) (k : ℕ)
    → contains js k ≡ true
    → IsReady s.jobs k
    → contains (queue_successors js s).ready_jobs k ≡ true
unfolding queue_successors
queue_successors-queues [] s k e ready = absurd (let z = contains-nil k in cc)
queue_successors-queues (j ∷ js) s k e ready =
    go (λ t. queue_successors-queues js t k) (λ t. queue_successors-keeps js t k)
      (contains s.ready_jobs j) refl (is_ready s j) refl (contains-cons j js k e)
  where
    go :
        ((t : JobManager)
          → contains js k ≡ true
          → IsReady t.jobs k
          → contains (queue_successors js t).ready_jobs k ≡ true)
        → ((t : JobManager)
            → contains t.ready_jobs k ≡ true
            → contains (queue_successors js t).ready_jobs k ≡ true)
        → (there : Bool) → contains s.ready_jobs j ≡ there
        → (can : Bool) → is_ready s j ≡ can
        → (k ≡ j) ⊎ (contains js k ≡ true)
        → contains
            (queue_successors js (
              if can && not there
              then record s { ready_jobs = j ∷ s.ready_jobs }
              else s)).ready_jobs
            k
          ≡ true
    go again keeps there p false q (inl same) = absurd (true-false (rw same at ready) q)
    go again keeps true p true q (inl same) = keeps s (rw same p)
    go again keeps false p true q (inl same) =
        keeps (record s { ready_jobs = j ∷ s.ready_jobs })
          (rw same (contains-cons_self j s.ready_jobs))
    go again keeps there p false q (inr later) = again s later ready
    go again keeps true p true q (inr later) = again s later ready
    go again keeps false p true q (inr later) =
        again (record s { ready_jobs = j ∷ s.ready_jobs }) later ready

-- The executers after a write to one of them, for the same job.
set-job_on :
    (xs : List JobExecuter) (i n : ℕ) (x y w : JobExecuter)
    → get_elem? xs i ≡ some x
    → y.job ≡ x.job
    → get_elem? xs n ≡ some w
    → (z : JobExecuter) × (get_elem? (set xs i y) n ≡ some z) × (z.job ≡ w.job)
set-job_on xs i n x y w at same here = elim (Eq-cases i n) [
  | inl e ↦
      let p : w ≡ x = (let q : get_elem? xs i ≡ some w = rw e here in cc) in
      (
        y,
        rw (sym e) (get_elem?-set_self xs i y (get_elem?-some-lt xs i x at)),
        same ∙ ap (λ v. v.job) (sym p),
      )
  | inr other ↦ (w, get_elem?-set_ne xs y other ∙ here, refl)
]

module _ (i : ℕ) (x : JobExecuter) (s t : JobManager) (at : get_elem? s.executers i ≡ some x)
    (done : notify i x s ≡ ok t) where
  -- The successors of the job are looked at if it has succeeded, and no other.
  notify-queue :
      (k : ℕ)
      → (contains s.ready_jobs k ≡ true)
        ⊎ (status s x.job ≡ succeeded)
          × (contains (s.jobs x.job).successors k ≡ true)
          × IsReady s.jobs k
      → contains t.ready_jobs k ≡ true
  unfolding notify
  notify-queue k why =
      let (pool, returned, rest) = notify_parts i x s t done in
      subst (λ u. contains u.ready_jobs k ≡ true) rest
        (go pool (status s x.job ≟ succeeded) refl why)
    where
      go :
          (pool : Pool) (b : Bool)
          → status s x.job ≟ succeeded ≡ b
          → (contains s.ready_jobs k ≡ true)
            ⊎ (status s x.job ≡ succeeded)
              × (contains (s.jobs x.job).successors k ≡ true)
              × IsReady s.jobs k
          → contains
              (if b
                then queue_successors
                    (s.jobs x.job).successors
                    (set_phase i x notified (record s { pool = pool }))
                else set_phase i x notified (record s { pool = pool })).ready_jobs
              k
            ≡ true
      go pool false e (inl there) = there
      go pool false e (inr (won, next, ready)) =
          absurd (true-false ((job_status_eq.beq_iff (status s x.job) succeeded).1 won) e)
      go pool true e (inl there) =
          queue_successors-keeps (s.jobs x.job).successors
            (set_phase i x notified (record s { pool = pool })) k there
      go pool true e (inr (won, next, ready)) =
          queue_successors-queues (s.jobs x.job).successors
            (set_phase i x notified (record s { pool = pool })) k next ready

  -- What NotifyJobComplete leaves alone.
  pub notify-same :
      (pool : Pool) × (ready : List ℕ) × (t
        ≡ set_phase i x notified (record s { pool = pool; ready_jobs = ready }))
  unfolding notify
  notify-same =
      let (pool, returned, rest) = notify_parts i x s t done in
      let (ready, e) = notify-ok i x s pool returned in (pool, ready, ok_injective (sym done ∙ e))

  notify-IsHandled : (k : ℕ) → IsReady s.jobs k → IsHandled s k → IsHandled t k
  notify-IsHandled k ready (is_queued e) = is_queued (notify-queue k (inl e))
  notify-IsHandled k ready (is_started n w here same) =
      let (pool, queue, e) = notify-same in
      let (z, at', job) =
        set-job_on s.executers i n x (record x { phase = notified }) w at refl here in
      is_started n z (rw e at') (job ∙ same)
  notify-IsHandled k ready (is_pending n w here phase won next) = elim (Eq-cases i n) [
    | inl same ↦
        let p : w ≡ x = (let q : get_elem? s.executers i ≡ some w = rw same here in cc) in
        is_queued (
          notify-queue k (
            inr (
              subst (λ v. status s v.job ≡ succeeded) p won,
              subst (λ v. contains (s.jobs v.job).successors k ≡ true) p next,
              ready,
            )))
    | inr other ↦
        let (pool, queue, e) = notify-same in
        rw e (
          is_pending n w (get_elem?-set_ne s.executers (record x { phase = notified }) other ∙ here)
            phase won next)
  ]

  pub notify-IsComplete : IsComplete s → IsComplete t
  notify-IsComplete h =
      let (pool, queue, e) = notify-same in
      let jobs_same : t.jobs ≡ s.jobs = ap (λ u. u.jobs) e in
      let all_same : t.all_jobs ≡ s.all_jobs = ap (λ u. u.all_jobs) e in
      record {
        linked = rw jobs_same h.linked;
        handled = λ k there ready.
            let ready' : IsReady s.jobs k = rw jobs_same at ready in
            notify-IsHandled k ready' (h.handled k (rw all_same at there) ready');
      }
