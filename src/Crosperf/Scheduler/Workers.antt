-- ===== src/Crosperf/Scheduler/Workers.antt =====
-- The threads of the duts (DutWorker of crosperf/schedv2.py) and the scheduler's main thread, in any
-- order.
use external_toolchain_utils.Crosperf.ImageManager.{allocate}
use external_toolchain_utils.Crosperf.Scheduler.{
  remove_first, pop_cached, terminate, set_dut_label, pending_runs, get_cached_benchmark_run,
  get_benchmark_run, get_for_label, allocate_label, pop_first, dut_worker_finished, Schedv2,
}
use mathlib.Core.Path.{subst}
use external_toolchain_utils.Prelude.{
  ℕ, ◌+◌, ◌≡◌, refl, sym, ap, inl, inr, Bool, true, false, Option, none, some, List, [], ◌∷◌, ◌++◌,
  arith, count_of, count_of-nil, count_of-cons, count_all, count_all-set, get_elem?, Result, ◌>>=◌,
  parts_of_ok, ok_injective, ◌==◌, if◌then◌else◌, Option-cases, key_error, ok, err, nat_eq,
}

-- One call of the scheduler, with the benchmark run that it gives to a worker, if any.
pub data SchedStep (s s' : Schedv2) (given : Option ℕ) : Type 0 where
  cached_step : get_cached_benchmark_run s ≡ (s', given) → SchedStep s s' given
  run_step : (d : ℕ) → get_benchmark_run d s ≡ ok (s', given) → SchedStep s s' given
  label_step :
      (d : ℕ) (label : Option ℕ)
      → given ≡ none
      → allocate_label d s ≡ ok (s', label)
      → SchedStep s s' given
  reimage_step :
      (d : ℕ) (label : Option ℕ)
      → given ≡ none
      → s' ≡ set_dut_label d label s
      → SchedStep s s' given
  finish_step : (d : ℕ) → given ≡ none → dut_worker_finished d s ≡ ok s' → SchedStep s s' given
  terminate_step : given ≡ none → s' ≡ terminate s → SchedStep s s' given

abbrev pub add_given : Option ℕ → List ℕ → List ℕ
add_given none brs = brs
add_given (some br) brs = br ∷ brs

-- The calls so far, with all the benchmark runs that they have given to workers.
pub data SchedSteps (s : Schedv2) : List ℕ → Schedv2 → Type 0 where
  no_calls : SchedSteps s [] s
  one_call :
      {t u : Schedv2} {brs : List ℕ} {given : Option ℕ}
      → SchedSteps s brs t
      → SchedStep t u given
      → SchedSteps s (add_given given brs) u

-- How often run `k` is left.
abbrev pub left : ℕ → Schedv2 → ℕ
left k s = count_of k s.cached_br_list + count_all k s.label_brl_map

abbrev pub given_count : ℕ → Option ℕ → ℕ
given_count k none = 0
given_count k (some br) = if br == k then 1 else 0

cached-left :
    (k : ℕ) (brs : List ℕ) (s : Schedv2)
    → s.cached_br_list ≡ brs
    → left k (pop_cached brs s).0 + given_count k (pop_cached brs s).1 ≡ left k s
cached-left k [] s e = omega arith
cached-left k (br ∷ rest) s e = rw e (let c = count_of-cons k br rest in omega arith)

pop_first-left :
    (k l : ℕ) (brl : List ℕ) (s : Schedv2)
    → get_elem? s.label_brl_map l ≡ some brl
    → left k (pop_first l brl s).0 + given_count k (pop_first l brl s).1 ≡ left k s
unfolding pop_first
pop_first-left k l [] s at = omega arith
pop_first-left k l (br ∷ brs) s at =
    let a = count_all-set k s.label_brl_map l (br ∷ brs) brs at in
    let c = count_of-cons k br brs in omega arith

get_for_label-left :
    (k : ℕ) (label : Option ℕ) (s s' : Schedv2) (given : Option ℕ)
    → get_for_label label s ≡ ok (s', given)
    → left k s' + given_count k given ≡ left k s
unfolding get_for_label
get_for_label-left k none s s' given h =
    subst (λ (r : Schedv2 × Option ℕ). left k r.0 + given_count k r.1 ≡ left k s) (ok_injective h)
      (omega arith)
get_for_label-left k (some l) s s' given h = elim (Option-cases (get_elem? s.label_brl_map l)) [
  | inl missing ↦ absurd (let e : err key_error ≡ ok (s', given) = rw missing at h in cc)
  | inr (brl, at) ↦
      let e : ok (pop_first l brl s) ≡ ok (s', given) = rw at at h in
      subst (λ (r : Schedv2 × Option ℕ). left k r.0 + given_count k r.1 ≡ left k s) (ok_injective e)
        (pop_first-left k l brl s at)
]

get_benchmark_run-left :
    (k d : ℕ) (s s' : Schedv2) (given : Option ℕ)
    → get_benchmark_run d s ≡ ok (s', given)
    → left k s' + given_count k given ≡ left k s
unfolding get_benchmark_run
get_benchmark_run-left k d s s' given h = go s.terminated h
  where
    go :
        (over : Bool)
        → (if over then ok (s, none) else get_for_label (s.dut_label d) s) ≡ ok (s', given)
        → left k s' + given_count k given ≡ left k s
    go true e =
        subst (λ (r : Schedv2 × Option ℕ). left k r.0 + given_count k r.1 ≡ left k s)
          (ok_injective e) (omega arith)
    go false e = get_for_label-left k (s.dut_label d) s s' given e

-- Allocation changes the image manager alone.
allocate_label-same :
    (d : ℕ) (s s' : Schedv2) (label : Option ℕ)
    → allocate_label d s ≡ ok (s', label)
    → (s'.cached_br_list ≡ s.cached_br_list) × (s'.label_brl_map ≡ s.label_brl_map)
unfolding allocate_label
allocate_label-same d s s' label h = go s.terminated h
  where
    go :
        (over : Bool)
        → ◌≡◌ {A = Result (Schedv2 × Option ℕ)}
            (if over
              then ok (s, none)
              else allocate (some (pending_runs s)) d s.manager >>= λ r.
                  ok (record s { manager = r.0 }, r.1))
            (ok (s', label))
        → (s'.cached_br_list ≡ s.cached_br_list) × (s'.label_brl_map ≡ s.label_brl_map)
    go true e =
        let p = ok_injective e in
        (ap (λ r. r.0.cached_br_list) (sym p), ap (λ r. r.0.label_brl_map) (sym p))
    go false e =
        let (r, q, rest) =
          parts_of_ok (allocate (some (pending_runs s)) d s.manager)
            (λ r. ok (record s { manager = r.0 }, r.1)) e in
        let p = ok_injective rest in
        (ap (λ r. r.0.cached_br_list) (sym p), ap (λ r. r.0.label_brl_map) (sym p))

SchedStep-left :
    (k : ℕ) (s s' : Schedv2) (given : Option ℕ)
    → SchedStep s s' given
    → left k s' + given_count k given ≡ left k s
unfolding dut_worker_finished
SchedStep-left k s s' given (cached_step e) =
    subst (λ (r : Schedv2 × Option ℕ). left k r.0 + given_count k r.1 ≡ left k s) e
      (cached-left k s.cached_br_list s refl)
SchedStep-left k s s' given (run_step d e) = get_benchmark_run-left k d s s' given e
SchedStep-left k s s' given (label_step d label nothing e) =
    let (a, b) = allocate_label-same d s s' label e in rw (nothing, a, b) (omega arith)
SchedStep-left k s s' given (reimage_step d label nothing e) = rw (nothing, e) (omega arith)
SchedStep-left k s s' given (finish_step d nothing e) =
    let (others, _, rest) =
      parts_of_ok (remove_first d s.active_workers)
        (λ others.
          ok
            (record s { active_workers = others; finished_workers = s.finished_workers ++ d ∷ [] }))
        e in
    rw (nothing, sym (ok_injective rest)) (omega arith)
SchedStep-left k s s' given (terminate_step nothing e) = rw (nothing, e) (omega arith)

add_given-count :
    (k : ℕ) (given : Option ℕ) (brs : List ℕ)
    → count_of k (add_given given brs) ≡ given_count k given + count_of k brs
add_given-count k none brs = omega arith
add_given-count k (some br) brs = count_of-cons k br brs

-- However the workers' calls interleave, a benchmark run that is left has not been given to a worker,
-- and one that has been given is no longer left: the two counts add up to what there was.
pub SchedSteps-left :
    (k : ℕ) (s : Schedv2) (brs : List ℕ) (s' : Schedv2)
    → SchedSteps s brs s'
    → left k s' + count_of k brs ≡ left k s
SchedSteps-left k s brs s' no_calls = let z = count_of-nil k in omega arith
SchedSteps-left k s brs s' (one_call {t = t} {brs = bs} {given = given} before last) =
    let h = SchedSteps-left k s bs t before in
    let c = SchedStep-left k t s' given last in let a = add_given-count k given bs in omega arith
