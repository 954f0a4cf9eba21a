-- ===== src/Crosperf/Scheduler/Once.antt =====
-- From the reading of the cache to the end of the workers: where each benchmark run goes.
use external_toolchain_utils.Crosperf.Scheduler.Workers.{SchedSteps-left, SchedSteps}
use external_toolchain_utils.Crosperf.Scheduler.Workers.{left}
use external_toolchain_utils.Crosperf.Scheduler.{
  br_lists, Schedv2, new_schedv2, empty_lists, fill_map,
}
use external_toolchain_utils.Crosperf.Scheduler.Readers.{
  count_of-filter, ReadSteps-filter, IsRead, ReadSteps,
}
use external_toolchain_utils.Prelude.Equality.{beq_false}
use external_toolchain_utils.Crosperf.ImageManager.{new_manager, compute_initial_allocation}
use external_toolchain_utils.Prelude.{
  ℕ, ◌+◌, ◌≡◌, refl, sym, ap, inl, inr, Bool, true, false, none, some, List, [], ◌∷◌, ◌++◌, arith,
  count_of, count_of-nil, count_of-cons, count_of-append, contains-count_of, count_of-contains,
  count_all, count_all-set, get_elem?, set, ◌>>=◌, parts_of_ok, ok_injective, ◌==◌, if◌then◌else◌,
  ==_iff, Bool-cases, Option-cases, assertion_error, ok, err, nat_eq, contains, Eq-cases,
}

-- How many of `n` runs `k` go to the lists of the labels.
abbrev uncached : List ℕ → ℕ → ℕ → ℕ
uncached cached k n = if contains cached k then 0 else n

fill_map-count :
    (label_of : ℕ → ℕ) (cached : List ℕ) (k : ℕ) (brs : List ℕ) (m m' : List (List ℕ))
    → fill_map label_of cached brs m ≡ ok m'
    → count_all k m' ≡ count_all k m + uncached cached k (count_of k brs)
unfolding fill_map
fill_map-count label_of cached k [] m m' h =
    let same : m ≡ m' = ok_injective h in rw same (let z = count_of-nil k in ground arith)
fill_map-count label_of cached k (br ∷ brs) m m' h =
    elim (Option-cases (get_elem? m (label_of br))) [
      | inl missing ↦ absurd (let e : err assertion_error ≡ ok m' = rw missing at h in cc)
      | inr (brl, at) ↦
          go brl at (contains cached br) refl (λ u. fill_map-count label_of cached k brs u m')
            (rw at at h)
    ]
  where
    go :
        (brl : List ℕ)
        → get_elem? m (label_of br) ≡ some brl
        → (there : Bool) → contains cached br ≡ there
        → ((u : List (List ℕ))
            → fill_map label_of cached brs u ≡ ok m'
            → count_all k m' ≡ count_all k u + uncached cached k (count_of k brs))
        → fill_map label_of cached brs (if there then m else set m (label_of br) (brl ++ br ∷ []))
          ≡ ok m'
        → count_all k m' ≡ count_all k m + uncached cached k (count_of k (br ∷ brs))
    go brl at true p again e =
        let c = count_of-cons k br brs in
        let r = again m e in
        elim (Eq-cases br k) [
          | inl same ↦ let q : contains cached k ≡ true = rw same at p in ground (arith, c, r, q)
          | inr other ↦ let q = beq_false br k other in ground (arith, c, r, q)
        ]
    go brl at false p again e =
        let c = count_of-cons k br brs in
        let r = again (set m (label_of br) (brl ++ br ∷ [])) e in
        let a = count_all-set k m (label_of br) brl (brl ++ br ∷ []) at in
        let b = count_of-append k brl (br ∷ []) in
        let d = count_of-cons k br [] in
        let z = count_of-nil k in
        elim (Eq-cases br k) [
          | inl same ↦
              let q : contains cached k ≡ false = rw same at p in
              let t : (br == k) ≡ true = (==_iff br k).1 same in
              ground (arith, c, r, a, b, d, z, q, t)
          | inr other ↦
              let q : (br == k) ≡ false = beq_false br k other in
              ground (arith, c, r, a, b, d, z, q)
        ]

empty_lists-count : {A : Type 0} (k : ℕ) (as_ : List A) → count_all k (empty_lists as_) ≡ 0
unfolding empty_lists count_all
empty_lists-count k [] = refl
empty_lists-count k (a ∷ rest) =
    let h = empty_lists-count k rest in let z = count_of-nil k in omega arith

-- What the constructor leaves.
new_schedv2-left :
    (k : ℕ) (label_of : ℕ → ℕ) (remotes : List (List ℕ)) (duts brs cached : List ℕ) (s : Schedv2)
    → new_schedv2 label_of remotes duts brs cached ≡ ok s
    → left k s ≡ count_of k cached + uncached cached k (count_of k brs)
unfolding new_schedv2
new_schedv2-left k label_of remotes duts brs cached s h =
    let (m, filled, rest) =
      parts_of_ok (fill_map label_of cached brs (empty_lists remotes))
        (λ m. new_manager remotes duts >>= λ manager. ok (record {
          label_of = label_of;
          cached_br_list = cached;
          label_brl_map = m;
          dut_label = λ d. none;
          manager = (compute_initial_allocation manager).0;
          active_workers = duts;
          finished_workers = [];
          terminated = false;
        }))
        h in
    let (manager, made, end_) =
      parts_of_ok (new_manager remotes duts)
        (λ manager. ok (record {
          label_of = label_of;
          cached_br_list = cached;
          label_brl_map = m;
          dut_label = λ d. none;
          manager = (compute_initial_allocation manager).0;
          active_workers = duts;
          finished_workers = [];
          terminated = false;
        }))
        rest in
    let same = ok_injective end_ in
    let a : cached ≡ s.cached_br_list = ap (λ (t : Schedv2). t.cached_br_list) same in
    let b : m ≡ s.label_brl_map = ap (λ (t : Schedv2). t.label_brl_map) same in
    let c = fill_map-count label_of cached k brs (empty_lists remotes) m filled in
    let z = empty_lists-count k remotes in rw (sym a, sym b) (omega arith)

-- Every benchmark run of an experiment is given to a worker as often as it is among the benchmark
-- runs, less what is left: none is given twice or forgotten, whether its result was in the cache or not,
-- however the cache readers and then the workers interleave.
pub given_once :
    (hit : ℕ → Bool) (brs : List ℕ) (lists : List (List ℕ)) (cached : List ℕ)
    → ReadSteps hit (br_lists brs) [] lists cached
    → IsRead lists
    → (label_of : ℕ → ℕ) (remotes : List (List ℕ)) (duts : List ℕ) (s : Schedv2)
    → new_schedv2 label_of remotes duts brs cached ≡ ok s
    → (given : List ℕ) (s' : Schedv2) → SchedSteps s given s'
    → (k : ℕ) → left k s' + count_of k given ≡ count_of k brs
given_once hit brs lists cached reading done label_of remotes duts s made given s' calls k =
    let a = SchedSteps-left k s given s' calls in
    let b = new_schedv2-left k label_of remotes duts brs cached s made in
    let c = ReadSteps-filter hit brs lists cached reading done k in
    let d = count_of-filter hit k brs in
    elim (Bool-cases (contains cached k)) [
      | inl there ↦ let e = contains-count_of k cached there in ground (arith, a, b, c, d, e, there)
      | inr out ↦ let e = count_of-contains k cached out in ground (arith, a, b, c, d, e, out)
    ]
