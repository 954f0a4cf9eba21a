-- ===== src/Crosperf/Scheduler/Segments.antt =====
-- The segments of the benchmark runs in _read_br_cache of crosperf/schedv2.py.
use native.Mathlib.Nat.{div-add-mod, mod-lt}
use external_toolchain_utils.Crosperf.Scheduler.{
  benchmarkruns_per_thread, n_threads, br_lists, segments_from,
}
use external_toolchain_utils.Prelude.{
  ℕ, zero, suc, ◌+◌, ◌-◌, ◌*◌, ◌/◌, ◌≤◌, ◌<◌, ◌≡◌, refl, sym, ap, inl, inr, false, List, [], ◌∷◌,
  ◌++◌, append-nil, arith, length, drop, take-append-drop, drop-drop, length-take_le, length-drop,
  leb, Bool-cases,
}

unfoldable pub concat {ℓ} : {A : Type ℓ} → List (List A) → List A
concat [] = []
concat (xs ∷ rest) = xs ++ concat rest

pub concat-segments_from :
    (rounds i per_thread : ℕ) (brs : List ℕ)
    → concat (segments_from rounds i per_thread brs) ≡ drop (i * per_thread) brs
unfolding segments_from concat
concat-segments_from zero i per_thread brs = append-nil (drop (i * per_thread) brs)
concat-segments_from (suc rounds) i per_thread brs =
    let h = concat-segments_from rounds (i + 1) per_thread brs in
    let width : (i + 1) * per_thread - i * per_thread ≡ per_thread = segment_width i per_thread in
    let next : (i + 1) * per_thread ≡ i * per_thread + per_thread = segment_end i per_thread in
    rw (h, width, next, sym (drop-drop per_thread (i * per_thread) brs))
      (take-append-drop per_thread (drop (i * per_thread) brs))
  where
    segment_end : (i p : ℕ) → (i + 1) * p ≡ i * p + p
    segment_end i p = omega arith

    segment_width : (i p : ℕ) → (i + 1) * p - i * p ≡ p
    segment_width i p = let e = segment_end i p in omega arith

pub length-segments_from :
    (rounds i per_thread : ℕ) (brs : List ℕ)
    → length (segments_from rounds i per_thread brs) ≡ suc rounds
unfolding segments_from
length-segments_from zero i per_thread brs = refl
length-segments_from (suc rounds) i per_thread brs =
    ap suc (length-segments_from rounds (i + 1) per_thread brs)

-- Each list is at most so long.
abbrev pub AllAtMost : ℕ → List (List ℕ) → Type 0
AllAtMost n [] = Unit
AllAtMost n (xs ∷ rest) = (length xs ≤ n) × AllAtMost n rest

segments_from-AllAtMost :
    (rounds i per_thread : ℕ) (brs : List ℕ)
    → length brs ≤ (i + rounds + 1) * per_thread
    → AllAtMost per_thread (segments_from rounds i per_thread brs)
unfolding segments_from
segments_from-AllAtMost zero i per_thread brs h =
    (let l = length-drop (i * per_thread) brs in omega arith, tt)
segments_from-AllAtMost (suc rounds) i per_thread brs h = (
  let l = length-take_le ((i + 1) * per_thread - i * per_thread) (drop (i * per_thread) brs) in
      omega arith,
  segments_from-AllAtMost rounds (i + 1) per_thread brs
      (let e : (i + 1) + rounds + 1 ≡ i + suc rounds + 1 = omega arith in rw e h),
)

-- Rounding up leaves nothing over.
per_thread-le : (n t : ℕ) → 0 < t → n ≤ t * ((n + t - 1) / t)
per_thread-le n t h =
    let e = div-add-mod (n + t - 1) t in let l = mod-lt (n + t - 1) h in omega arith

n_threads_lem : (n : ℕ) → (2 ≤ n_threads n) × (n_threads n ≤ 20)
n_threads_lem n = (omega arith, omega arith)

-- The lists of the cache readers, one after the other, are the benchmark runs: each run is in one.
pub concat-br_lists : (brs : List ℕ) → concat (br_lists brs) ≡ brs
unfolding br_lists concat
concat-br_lists brs = elim (Bool-cases (leb (length brs) 4)) [
  | inl few ↦ rw few (append-nil brs)
  | inr many ↦
      let p = benchmarkruns_per_thread (length brs) in
      let none_before : 0 * p ≡ 0 = omega arith in
      rw (many, concat-segments_from (n_threads (length brs) - 1) 0 p brs, none_before)
]

-- For more than four benchmark runs there are from 2 to 20 readers, and none has more than the number
-- of runs per thread.
pub br_lists-AllAtMost :
    (brs : List ℕ)
    → 4 < length brs
    → (2 ≤ length (br_lists brs))
      × (length (br_lists brs) ≤ 20)
      × AllAtMost (benchmarkruns_per_thread (length brs)) (br_lists brs)
unfolding br_lists
br_lists-AllAtMost brs h =
    let n = length brs in
    let t = n_threads n in
    let p = benchmarkruns_per_thread n in
    let (low, high) = n_threads_lem n in
    let many : leb n 4 ≡ false = ground arith in
    let count = length-segments_from (t - 1) 0 p brs in
    let all : suc (t - 1) ≡ t = omega arith in
    let enough = per_thread-le n t (omega arith) in
    rw (many, count, all)
      (
        low,
        high,
        segments_from-AllAtMost (t - 1) 0 p brs
            (let e : 0 + (t - 1) + 1 ≡ t = omega arith in rw e enough),
      )
