-- ===== src/Automation/Jobs/Handled/Queue.antt =====
-- Where a job is that is ready to run, and what moves it on.
use external_toolchain_utils.Automation.Jobs.Links.{AreLinked}
use external_toolchain_utils.Automation.Jobs.Loop.{start_job_lem}
use external_toolchain_utils.Automation.Jobs.Steps.{set_job-same}
use external_toolchain_utils.Prelude.{
  ℕ, zero, suc, ◌≡◌, refl, sym, ap, ◌∙◌, ◌⊎◌, inl, inr, Bool, true, false, ◌||◌, some, List, [],
  ◌∷◌, ◌++◌, arith, length, get_elem?, set, ◌==◌, if◌then◌else◌, ==_iff, true-false, or_cases,
  nat_eq, contains,
}
use external_toolchain_utils.Prelude.Equality.{
  contains-snoc, contains-cons_self, contains-cons_of, contains-cons,
}
use external_toolchain_utils.Automation.StateMachine.{job_status_eq, succeeded}
use external_toolchain_utils.Automation.Jobs.{
  is_ready, start_job, set_job, add_job, JobExecuter, JobManager, Job, launch, status, starting,
  finished,
}
use external_toolchain_utils.Automation.Jobs.Effects.{
  IsReady-Extends, set_job-Extends, IsReady, Extends,
}
use external_toolchain_utils.Automation.Jobs.Loop.{Started, has_raised, has_machines}
use mathlib.Core.Path.{subst}
use Prim.Native.String.{String}

-- A job that is queued, has an executer, or is a successor of one that has succeeded and of which the
-- manager is still to be notified.
pub data IsHandled (s : JobManager) (j : ℕ) : Type 0 where
  is_queued : contains s.ready_jobs j ≡ true → IsHandled s j
  is_started :
      (i : ℕ) (x : JobExecuter) → get_elem? s.executers i ≡ some x → x.job ≡ j → IsHandled s j
  is_pending :
      (i : ℕ) (x : JobExecuter)
      → get_elem? s.executers i ≡ some x
      → x.phase ≡ finished
      → status s x.job ≡ succeeded
      → contains (s.jobs x.job).successors j ≡ true
      → IsHandled s j

-- Dependencies are linked both ways, as DependsOn does it, and every job that has been added and is
-- ready is handled.
pub record IsComplete (s : JobManager) : Type 0 where
  pub linked : AreLinked s.jobs
  pub handled : (j : ℕ) → contains s.all_jobs j ≡ true → IsReady s.jobs j → IsHandled s j

-- An executer that is still there for its job, and has not notified the manager since.
abbrev pub Remains : List JobExecuter → List JobExecuter → Type 0
Remains xs ys =
    (n : ℕ) (w : JobExecuter)
    → get_elem? xs n ≡ some w
    → (z : JobExecuter) × (get_elem? ys n ≡ some z)
      × (z.job ≡ w.job)
      × (w.phase ≡ finished → z.phase ≡ finished)

pub Remains-set :
    (xs : List JobExecuter) (i : ℕ) (x y : JobExecuter)
    → get_elem? xs i ≡ some x
    → y.job ≡ x.job
    → (x.phase ≡ finished → y.phase ≡ finished)
    → Remains xs (set xs i y)
Remains-set [] i x y at same ends n w e = absurd (cc)
Remains-set (a ∷ xs) zero x y at same ends zero w e =
    let p : x ≡ w = (cc) in (y, refl, same ∙ ap (λ v. v.job) p, λ f. ends (ap (λ v. v.phase) p ∙ f))
Remains-set (a ∷ xs) zero x y at same ends (suc n) w e = (w, e, refl, λ f. f)
Remains-set (a ∷ xs) (suc i) x y at same ends zero w e = (w, e, refl, λ f. f)
Remains-set (a ∷ xs) (suc i) x y at same ends (suc n) w e = Remains-set xs i x y at same ends n w e

Remains-append : (xs : List JobExecuter) (x : JobExecuter) → Remains xs (xs ++ x ∷ [])
Remains-append [] x n w e = absurd (cc)
Remains-append (a ∷ xs) x zero w e = (w, e, refl, λ f. f)
Remains-append (a ∷ xs) x (suc n) w e = Remains-append xs x n w e

last-append :
    (xs : List JobExecuter) (x : JobExecuter) → get_elem? (xs ++ x ∷ []) (length xs) ≡ some x
last-append [] x = refl
last-append (a ∷ xs) x = last-append xs x

-- A step on which no executer notifies the manager.
pub IsHandled-Remains :
    (s s' : JobManager) (j : ℕ)
    → Extends s.jobs s'.jobs
    → ((k : ℕ) → contains s.ready_jobs k ≡ true → IsHandled s' k)
    → Remains s.executers s'.executers
    → IsHandled s j
    → IsHandled s' j
IsHandled-Remains s s' j ext queue remains (is_queued e) = queue j e
IsHandled-Remains s s' j ext queue remains (is_started i x at same) =
    let (z, at', job, ends) = remains i x at in is_started i z at' (job ∙ same)
IsHandled-Remains s s' j ext queue remains (is_pending i x at phase done next) =
    let (z, at', job, ends) = remains i x at in
    is_pending i z at' (ends phase) (rw job (ext.stays x.job done)) (rw (job, ext.succs x.job) next)

pub IsComplete-Remains :
    (s s' : JobManager)
    → Extends s.jobs s'.jobs
    → ((k : ℕ) → contains s.ready_jobs k ≡ true → IsHandled s' k)
    → Remains s.executers s'.executers
    → ((j : ℕ)
        → contains s'.all_jobs j ≡ true
        → IsReady s'.jobs j
        → (contains s.all_jobs j ≡ true) × IsReady s.jobs j ⊎ IsHandled s' j)
    → IsComplete s
    → IsComplete s'
IsComplete-Remains s s' ext queue remains new h = record {
  linked = λ p j e. rw (ext.succs p) (h.linked p j (rw (ext.preds j) at e));
  handled = λ j there ready. elim (new j there ready) [
    | inl (old, before) ↦ IsHandled-Remains s s' j ext queue remains (h.handled j old before)
    | inr now ↦ now
  ];
}

-- Nothing has succeeded since.
pub Extends-back :
    {a b : ℕ → Job}
    → Extends a b
    → ((j : ℕ) → (b j).state.state ≡ succeeded → (a j).state.state ≡ succeeded)
    → Extends b a
Extends-back ext back = record {
  preds = λ j. sym (ext.preds j);
  succs = λ j. sym (ext.succs j);
  stays = back;
}

-- A write to a job that keeps its state.
pub set_job-back :
    (j : ℕ) (job : Job) (jobs : ℕ → Job)
    → job.state ≡ (jobs j).state
    → (i : ℕ) → (set_job j job jobs i).state.state ≡ succeeded
    → (jobs i).state.state ≡ succeeded
set_job-back j job jobs same i done = rw (set_job-same (λ b. b.state) j job jobs i same) at done

pub add_job-IsComplete : (j : ℕ) (s : JobManager) → IsComplete s → IsComplete (add_job j s)
unfolding add_job
add_job-IsComplete j s h =
    let job = record (s.jobs j) { id = s.next_id } in
    let ext = set_job-Extends j job s.jobs refl refl (λ e. e) in
    let back = Extends-back ext (set_job-back j job s.jobs refl) in
    IsComplete-Remains s (add_job j s) ext (λ k e. is_queued (queue k (is_ready s j) e))
      (λ n w e. (w, e, refl, λ f. f))
      (λ k there ready.
        elim (or_cases (contains s.all_jobs k) (k == j)
          (sym (contains-snoc s.all_jobs j k) ∙ there)) [
            | inl old ↦ inl (old, IsReady-Extends k back ready)
            | inr same ↦
                let e = (==_iff k j).0 same in
                let now : is_ready s j ≡ true = rw e at (IsReady-Extends k back ready) in
                inr (is_queued (rw (now, e) (contains-cons_self j s.ready_jobs)))
          ])
      h
  where
    queue :
        (k : ℕ) (b : Bool)
        → contains s.ready_jobs k ≡ true
        → contains (if b then j ∷ s.ready_jobs else s.ready_jobs) k ≡ true
    queue k false e = e
    queue k true e = contains-cons_of j s.ready_jobs k e

-- A job that is taken from the queue goes back to it or gets an executer.
launch-IsHandled :
    (j : ℕ) (machines : List ℕ) (s : JobManager)
    → IsHandled (launch j machines s).0 j
      × ((k : ℕ) → contains s.ready_jobs k ≡ true → IsHandled (launch j machines s).0 k)
      × Remains s.executers (launch j machines s).0.executers
unfolding launch
launch-IsHandled j [] s = (
  is_queued (
      rw (contains-snoc s.ready_jobs j j)
        (or_true (contains s.ready_jobs j) ((==_iff j j).1 refl))),
  λ k e. is_queued (rw (contains-snoc s.ready_jobs j k, e)),
  λ n w e. (w, e, refl, λ f. f),
)
  where
    or_true : (x : Bool) {y : Bool} → y ≡ true → x || y ≡ true
    or_true x e = ground arith
launch-IsHandled j (m ∷ ms) s =
    let x : JobExecuter = record { job = j; machines = m ∷ ms; phase = starting; killed = false } in
    (
      is_started (length s.executers) x (last-append s.executers x) refl,
      λ k e. is_queued e,
      Remains-append s.executers x,
    )

pub launch-same :
    (j : ℕ) (machines : List ℕ) (s : JobManager)
    → ((launch j machines s).0.jobs ≡ s.jobs)
      × ((launch j machines s).0.all_jobs ≡ s.all_jobs)
      × ((launch j machines s).0.run_ended ≡ s.run_ended)
unfolding launch
launch-same j [] s = (refl, refl, refl)
launch-same j (m ∷ ms) s = (refl, refl, refl)

-- A job that the body has taken from the queue is lost just if the body raises.
pub start_job-IsComplete :
    (fnmatch : String → String → Bool) (j : ℕ) (js : List ℕ) (s s' : JobManager) (more : Bool)
    → s.ready_jobs ≡ j ∷ js
    → IsComplete s
    → start_job fnmatch j (record s { ready_jobs = js }) ≡ (s', more)
    → s'.run_ended ≡ false
    → IsComplete s'
start_job-IsComplete fnmatch j js s s' more queue h done runs =
    go (start_job_lem fnmatch j (record s { ready_jobs = js }) s' more done)
  where
    go : Started fnmatch j (record s { ready_jobs = js }) s' more → IsComplete s'
    go (has_raised specs e) = absurd (true-false (sym (ap (λ r. r.0.run_ended) e)) runs)
    go (has_machines specs pool machines got launched) =
        let job = record (s.jobs j) { machine_dependencies = specs } in
        let ext = set_job-Extends j job s.jobs refl refl (λ e. e) in
        let back = Extends-back ext (set_job-back j job s.jobs refl) in
        let t : JobManager = record s {
          jobs = set_job j job s.jobs;
          ready_jobs = js;
          pool = pool;
        } in
        let (here, others, remains) = launch-IsHandled j machines t in
        let (same_jobs, same_all, same_run) = launch-same j machines t in
        subst (λ r. IsComplete r.0) launched
          (IsComplete-Remains s (launch j machines t).0 (subst (Extends s.jobs) (sym same_jobs) ext)
            (λ k e. elim (contains-cons j js k (rw queue at e)) [
              | inl same ↦ subst (IsHandled (launch j machines t).0) (sym same) here
              | inr old ↦ others k old
            ])
            remains
            (λ k there ready. inl (
              rw same_all at there,
              IsReady-Extends k back (subst (λ jobs. IsReady jobs k) same_jobs ready),
            ))
            h)

-- The thread of `run` does not come back.
pub start_job-run_ended :
    (fnmatch : String → String → Bool) (j : ℕ) (js : List ℕ) (s s' : JobManager) (more : Bool)
    → start_job fnmatch j (record s { ready_jobs = js }) ≡ (s', more)
    → s'.run_ended ≡ false
    → s.run_ended ≡ false
start_job-run_ended fnmatch j js s s' more done runs =
    go (start_job_lem fnmatch j (record s { ready_jobs = js }) s' more done)
  where
    go : Started fnmatch j (record s { ready_jobs = js }) s' more → s.run_ended ≡ false
    go (has_raised specs e) = absurd (true-false (sym (ap (λ r. r.0.run_ended) e)) runs)
    go (has_machines specs pool machines got launched) =
        let job = record (s.jobs j) { machine_dependencies = specs } in
        let t : JobManager = record s {
          jobs = set_job j job s.jobs;
          ready_jobs = js;
          pool = pool;
        } in
        let (same_jobs, same_all, same_run) = launch-same j machines t in
        sym same_run ∙ ap (λ r. r.0.run_ended) launched ∙ runs
