-- ===== src/Automation/Jobs/Links.antt =====
-- The links between jobs that DependsOn of automation/common/job.py makes.
use external_toolchain_utils.Automation.Jobs.Steps.{set_job-ne, set_job-same, set_job_self}
use external_toolchain_utils.Automation.Jobs.{set_job, depends_on, Job, add_to}
use external_toolchain_utils.Prelude.Equality.{contains-cons, contains-cons_self, contains-cons_of}
use mathlib.Core.Path.{subst}
use external_toolchain_utils.Prelude.{
  ℕ, ◌≡◌, refl, sym, ap, ◌∙◌, ◌⊎◌, inl, inr, Bool, true, false, List, ◌∷◌, if◌then◌else◌,
  Bool-cases, nat_eq, contains, Eq-cases,
}

-- A job is a successor of each of its predecessors.
abbrev pub AreLinked : (ℕ → Job) → Type 0
AreLinked jobs =
    (p j : ℕ) → contains (jobs j).predecessors p ≡ true → contains (jobs p).successors j ≡ true

contains-add_to_self : (xs : List ℕ) (a : ℕ) → contains (add_to xs a) a ≡ true
contains-add_to_self xs a = elim (Bool-cases (contains xs a)) [
  | inl there ↦ rw (there, there)
  | inr new ↦ rw new (contains-cons_self a xs)
]

contains-add_to_of :
    (xs : List ℕ) (a b : ℕ) → contains xs b ≡ true → contains (add_to xs a) b ≡ true
contains-add_to_of xs a b h = elim (Bool-cases (contains xs a)) [
  | inl there ↦ rw there h
  | inr new ↦ rw new (contains-cons_of a xs b h)
]

add_to-contains :
    (xs : List ℕ) (a b : ℕ) → contains (add_to xs a) b ≡ true → (b ≡ a) ⊎ (contains xs b ≡ true)
add_to-contains xs a b = go (contains xs a)
  where
    go :
        (there : Bool)
        → contains (if there then xs else a ∷ xs) b ≡ true
        → (b ≡ a) ⊎ (contains xs b ≡ true)
    go true h = inr h
    go false h = contains-cons a xs b h

-- What DependsOn leaves.
depends_on-predecessors :
    (j p : ℕ) (jobs : ℕ → Job) (i q : ℕ)
    → contains (depends_on j p jobs i).predecessors q ≡ true
    → ((i ≡ j) × (q ≡ p)) ⊎ (contains (jobs i).predecessors q ≡ true)
unfolding depends_on
depends_on-predecessors j p jobs i q h =
    let job = record (jobs j) { predecessors = add_to (jobs j).predecessors p } in
    let jobs' = set_job j job jobs in
    let k : contains (jobs' i).predecessors q ≡ true =
      rw
        (sym (
          set_job-same (λ b. b.predecessors) p
            (record (jobs' p) { successors = add_to (jobs' p).successors j }) jobs' i refl))
        h in
    elim (Eq-cases i j) [
      | inl same ↦
          let e : jobs' i ≡ job = ap jobs' same ∙ set_job_self j job jobs in
          let l : contains (add_to (jobs j).predecessors p) q ≡ true =
            subst (λ b. contains b.predecessors q ≡ true) e k in
          elim (add_to-contains (jobs j).predecessors p q l) [
            | inl new ↦ inl (same, new)
            | inr old ↦ inr (rw same old)
          ]
      | inr other ↦
          inr (subst (λ b. contains b.predecessors q ≡ true) (set_job-ne j job jobs i other) k)
    ]

depends_on-successors :
    (j p : ℕ) (jobs : ℕ → Job)
    → (contains (depends_on j p jobs p).successors j ≡ true)
      × ((q i : ℕ)
          → contains (jobs q).successors i ≡ true
          → contains (depends_on j p jobs q).successors i ≡ true)
unfolding depends_on
depends_on-successors j p jobs =
    let job = record (jobs j) { predecessors = add_to (jobs j).predecessors p } in
    let jobs' = set_job j job jobs in
    let last = record (jobs' p) { successors = add_to (jobs' p).successors j } in
    (
      subst (λ b. contains b.successors j ≡ true) (sym (set_job_self p last jobs'))
          (contains-add_to_self (jobs' p).successors j),
      λ q i h.
          let k : contains (jobs' q).successors i ≡ true =
            rw (set_job-same (λ b. b.successors) j job jobs q refl) h in
          elim (Eq-cases q p) [
            | inl same ↦
                subst (λ b. contains b.successors i ≡ true)
                  (sym (ap (set_job p last jobs') same ∙ set_job_self p last jobs'))
                  (contains-add_to_of (jobs' p).successors j i
                    (subst (λ n. contains (jobs' n).successors i ≡ true) same k))
            | inr other ↦
                subst (λ b. contains b.successors i ≡ true) (sym (set_job-ne p last jobs' q other))
                  k
          ],
    )

-- DependsOn keeps the links.
pub depends_on-AreLinked :
    (j p : ℕ) (jobs : ℕ → Job) → AreLinked jobs → AreLinked (depends_on j p jobs)
depends_on-AreLinked j p jobs h q i before =
    let (new_link, old_links) = depends_on-successors j p jobs in
    elim (depends_on-predecessors j p jobs i q before) [
      | inl (same, here) ↦ rw (same, here) new_link
      | inr old ↦ old_links q i (h q i old)
    ]
