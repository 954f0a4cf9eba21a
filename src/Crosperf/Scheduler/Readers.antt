-- ===== src/Crosperf/Scheduler/Readers.antt =====
-- The threads that read the cache (BenchmarkRunCacheReader of crosperf/schedv2.py), in any order.
use external_toolchain_utils.Crosperf.Scheduler.Segments.{concat-br_lists, concat}
use external_toolchain_utils.Crosperf.Scheduler.{br_lists, read_br}
use external_toolchain_utils.Prelude.Equality.{beq_false}
use external_toolchain_utils.Prelude.{
  ℕ, ◌+◌, ◌≡◌, refl, sym, ap, ◌∙◌, inl, inr, Bool, true, false, some, List, [], ◌∷◌, arith,
  count_of, count_of-nil, count_of-cons, count_of-append, count_all, count_all-set, get_elem?, set,
  filter, ◌==◌, if◌then◌else◌, ==_iff, nat_eq, Eq-cases,
}

-- One of the readers reads the cache for the next run of its list.
pub data ReadStep (hit : ℕ → Bool) (lists : List (List ℕ)) (cached : List ℕ)
    (lists' : List (List ℕ)) (cached' : List ℕ) : Type 0 where
  read_step :
      (i br : ℕ) (rest : List ℕ)
      → get_elem? lists i ≡ some (br ∷ rest)
      → lists' ≡ set lists i rest
      → cached' ≡ read_br hit br cached
      → ReadStep hit lists cached lists' cached'

pub data ReadSteps (hit : ℕ → Bool) (lists : List (List ℕ)) (cached : List ℕ)
    : List (List ℕ) → List ℕ → Type 0 where
  nothing_read : ReadSteps hit lists cached lists cached
  one_more_read :
      {lists' lists'' : List (List ℕ)} {cached' cached'' : List ℕ}
      → ReadSteps hit lists cached lists' cached'
      → ReadStep hit lists' cached' lists'' cached''
      → ReadSteps hit lists cached lists'' cached''

-- Every reader has come to the end of its list.
abbrev pub IsRead : List (List ℕ) → Type 0
IsRead [] = Unit
IsRead (brs ∷ lists) = (brs ≡ []) × IsRead lists

IsRead-count_all : (k : ℕ) (lists : List (List ℕ)) → IsRead lists → count_all k lists ≡ 0
unfolding count_all
IsRead-count_all k [] h = refl
IsRead-count_all k (brs ∷ lists) (empty, rest) =
    rw empty (let z = count_of-nil k in let h = IsRead-count_all k lists rest in omega arith)

count_all-concat : (k : ℕ) (lists : List (List ℕ)) → count_all k lists ≡ count_of k (concat lists)
unfolding count_all concat
count_all-concat k [] = sym (count_of-nil k)
count_all-concat k (brs ∷ lists) =
    let h = count_all-concat k lists in let a = count_of-append k brs (concat lists) in omega arith

-- The hits among so many runs `k`.
abbrev hits : (ℕ → Bool) → ℕ → ℕ → ℕ
hits hit k n = if hit k then n else 0

pub count_of-filter :
    (hit : ℕ → Bool) (k : ℕ) (brs : List ℕ)
    → count_of k (filter hit brs) ≡ hits hit k (count_of k brs)
unfolding count_of
count_of-filter hit k [] = ground arith
count_of-filter hit k (br ∷ brs) = elim (Eq-cases br k) [
  | inl same ↦ rw same (ground (arith, count_of-filter hit k brs))
  | inr other ↦
      let e : (br == k) ≡ false = beq_false br k other in
      ground (arith, e, count_of-filter hit k brs)
]

ReadStep-count :
    (hit : ℕ → Bool) (k : ℕ) (lists lists' : List (List ℕ)) (cached cached' : List ℕ)
    → ReadStep hit lists cached lists' cached'
    → count_of k cached' + hits hit k (count_all k lists')
      ≡ count_of k cached + hits hit k (count_all k lists)
ReadStep-count hit k lists lists' cached cached' (read_step i br rest at e f) =
    let a = count_all-set k lists i (br ∷ rest) rest at in
    let b = count_of-cons k br rest in
    let c = count_of-cons k br cached in
    rw (e, f)
      (elim (Eq-cases br k) [
        | inl same ↦
            let t : (br == k) ≡ true = (==_iff br k).1 same in
            let u : hit br ≡ hit k = ap hit same in ground (arith, a, b, c, t, u)
        | inr other ↦ let t : (br == k) ≡ false = beq_false br k other in ground (arith, a, b, c, t)
      ])

ReadSteps-count :
    (hit : ℕ → Bool) (k : ℕ) (lists : List (List ℕ)) (cached : List ℕ) (lists' : List (List ℕ))
    (cached' : List ℕ)
    → ReadSteps hit lists cached lists' cached'
    → count_of k cached' + hits hit k (count_all k lists')
      ≡ count_of k cached + hits hit k (count_all k lists)
ReadSteps-count hit k lists cached lists' cached' nothing_read = refl
ReadSteps-count hit k lists cached lists' cached'
      (one_more_read {lists' = ls} {cached' = c} before last) =
    ReadStep-count hit k ls lists' c cached' last ∙ ReadSteps-count hit k lists cached ls c before

-- However the readers interleave, when all have come to the end the cached runs are those that have a
-- cache hit, each as often as among the benchmark runs: as if one reader had read them all.
pub ReadSteps-filter :
    (hit : ℕ → Bool) (brs : List ℕ) (lists : List (List ℕ)) (cached : List ℕ)
    → ReadSteps hit (br_lists brs) [] lists cached
    → IsRead lists
    → (k : ℕ) → count_of k cached ≡ count_of k (filter hit brs)
ReadSteps-filter hit brs lists cached steps done k =
    let a = ReadSteps-count hit k (br_lists brs) [] lists cached steps in
    let z = count_of-nil k in
    let b = IsRead-count_all k lists done in
    let c : count_all k (br_lists brs) ≡ count_of k brs =
      count_all-concat k (br_lists brs) ∙ ap (count_of k) (concat-br_lists brs) in
    let d = count_of-filter hit k brs in ground (arith, a, b, c, d, z)
