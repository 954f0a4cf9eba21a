-- ===== src/Bestflags/Flags/Neighbours.antt =====
-- ClimbNext and _DecreaseFlag of bestflags: what a neighbour of a dictionary of flags is.
use external_toolchain_utils.Bestflags.Flags.{
  random_flag, flag_of, decrease_value, turn_on, climb_value, decrease_flag, decrease_from,
  climb_next, climb_from, Library, Flag, FlagsDict,
}
use external_toolchain_utils.Prelude.Dict.{
  lookup, insert, delete, lookup-insert_self, lookup-insert_ne, lookup-delete_self,
  lookup-delete_ne,
}
use external_toolchain_utils.Prelude.{
  ℕ, ◌+◌, ◌-◌, ◌≤◌, ◌<◌, ◌≡◌, refl, ◌∙◌, ◌≢◌, ◌⊎◌, inl, inr, true, false, Option, none, some, List,
  [], ◌∷◌, arith, length, ltb, ◌==◌, ltb→lt, ltb→le, ==_iff, Bool-cases, ok, Eq,
}

abbrev pub IsRange : Option (ℕ × ℕ) → Type 0
IsRange none = Unit
IsRange (some (start, end)) = start < end

-- The value of a flag that is on, for a boolean or a numeric spec.
abbrev pub InRange : Option (ℕ × ℕ) → ℕ → Type 0
InRange none value = value ≡ 0
InRange (some (start, end)) value = (start ≤ value) × (value < end)

abbrev pub IsOff : Option (ℕ × ℕ) → {K : Type 0} → Option (Flag K) → Type 0
IsOff range none = Unit
IsOff range (some f) = InRange range f.value

-- What the neighbour holds at the spec, after `old`: the flag turned on or off, or a value one step
-- away, within the range.
abbrev pub IsStep : {K : Type 0} → Option (ℕ × ℕ) → Option (Flag K) → Option (Flag K) → Type 0
IsStep range none none = ⊥
IsStep range none (some g) = InRange range g.value
IsStep none (some f) none = Unit
IsStep none (some f) (some g) = ⊥
IsStep (some r) (some f) none = f.value ≡ r.0
IsStep (some r) (some f) (some g) =
    InRange (some r) g.value × ((g.value ≡ f.value + 1) ⊎ (g.value + 1 ≡ f.value))

module _ {K : Type 0} ⦃e : Eq K⦄ where
  abbrev pub OnlyAt : K → FlagsDict K → FlagsDict K → Type 0
  OnlyAt spec d d' = (k : K) → spec ≢ k → lookup k d' ≡ lookup k d

  -- A neighbour of `d` along `spec`.
  abbrev pub IsNeighbour : Option (ℕ × ℕ) → K → FlagsDict K → FlagsDict K → Type 0
  IsNeighbour range spec d d' = OnlyAt spec d d' × IsStep range (lookup spec d) (lookup spec d')

  abbrev pub AllNeighbours : Option (ℕ × ℕ) → K → FlagsDict K → List (FlagsDict K) → Type 0
  AllNeighbours range spec d [] = Unit
  AllNeighbours range spec d (d' ∷ ds) = IsNeighbour range spec d d' × AllNeighbours range spec d ds

  insert-IsNeighbour :
      (range : Option (ℕ × ℕ)) (spec : K) (d : FlagsDict K) (o : Option (Flag K)) (f : Flag K)
      → lookup spec d ≡ o
      → IsStep range o (some f)
      → IsNeighbour range spec d (insert spec f d)
  insert-IsNeighbour range spec d o f at h =
      ((λ k ne. lookup-insert_ne spec k f d ne), rw (at, lookup-insert_self spec f d) h)

  delete-IsNeighbour :
      (range : Option (ℕ × ℕ)) (spec : K) (d : FlagsDict K) (o : Option (Flag K))
      → lookup spec d ≡ o
      → IsStep range o none
      → IsNeighbour range spec d (delete spec d)
  delete-IsNeighbour range spec d o at h =
      ((λ k ne. lookup-delete_ne spec k d ne), rw (at, lookup-delete_self spec d) h)

  module _ (lib : Library K) where
    climb_value-AllNeighbours :
        (d : FlagsDict K) (spec : K) (f : Flag K) (start end : ℕ)
        → lookup spec d ≡ some f
        → (start ≤ f.value) × (f.value < end)
        → AllNeighbours (some (start, end)) spec d (climb_value lib d spec f.value start end)
          × (1 ≤ length (climb_value lib d spec f.value start end))
          × (length (climb_value lib d spec f.value start end) ≤ 2)
    unfolding climb_value
    climb_value-AllNeighbours d spec f start end at h =
        let range : Option (ℕ × ℕ) = some (start, end) in
        elim (Bool-cases (ltb (f.value + 1) end)) [
          | inl up ↦
              let above =
                insert-IsNeighbour range spec d (some f) (flag_of spec (f.value + 1)) at
                  ((omega arith, ltb→lt (f.value + 1) end up), inl refl) in
              elim (Bool-cases (ltb start f.value)) [
                | inl down ↦
                    rw (up, down) ((above, (below range down, tt)), omega arith, omega arith)
                | inr bottom ↦
                    rw (up, bottom) ((above, (off range bottom, tt)), omega arith, omega arith)
              ]
          | inr top ↦ elim (Bool-cases (ltb start f.value)) [
            | inl down ↦ rw (top, down) ((below range down, tt), omega arith, omega arith)
            | inr bottom ↦ rw (top, bottom) ((off range bottom, tt), omega arith, omega arith)
          ]
        ]
      where
        below :
            (range : Option (ℕ × ℕ))
            → ltb start f.value ≡ true
            → IsNeighbour (some (start, end)) spec d (insert spec (flag_of spec (f.value - 1)) d)
        below range down =
            let lower = ltb→lt start f.value down in
            insert-IsNeighbour (some (start, end)) spec d (some f) (flag_of spec (f.value - 1)) at
              ((omega arith, omega arith), inr (omega arith))

        off :
            (range : Option (ℕ × ℕ))
            → ltb start f.value ≡ false
            → IsNeighbour (some (start, end)) spec d (delete spec d)
        off range bottom =
            let upper = ltb→le start f.value bottom in
            delete-IsNeighbour (some (start, end)) spec d (some f) at (omega arith)

    climb_from-AllNeighbours :
        (d : FlagsDict K) (spec : K) (o : Option (Flag K)) (range : Option (ℕ × ℕ))
        → lib.range_of spec ≡ range
        → lookup spec d ≡ o
        → IsRange range
        → IsOff range o
        → (ds : List (FlagsDict K)) × (climb_from lib d spec o range ≡ ok ds)
          × AllNeighbours range spec d ds
          × (1 ≤ length ds)
          × (length ds ≤ 2)
    unfolding climb_from turn_on random_flag
    climb_from-AllNeighbours d spec none none same at valid inside = (
      insert spec (flag_of spec 0) d ∷ [],
      rw same,
      (insert-IsNeighbour none spec d none (flag_of spec 0) at refl, tt),
      omega arith,
      omega arith,
    )
    climb_from-AllNeighbours d spec none (some (start, end)) same at valid inside = (
      insert spec (flag_of spec start) d ∷ [],
      refl,
      (
        insert-IsNeighbour (some (start, end)) spec d none (flag_of spec start) at (omega arith),
        tt,
      ),
      omega arith,
      omega arith,
    )
    climb_from-AllNeighbours d spec (some f) none same at valid inside = (
      delete spec d ∷ [],
      refl,
      (delete-IsNeighbour none spec d (some f) at tt, tt),
      omega arith,
      omega arith,
    )
    climb_from-AllNeighbours d spec (some f) (some (start, end)) same at valid inside =
        let (all, low, high) = climb_value-AllNeighbours d spec f start end at inside in
        (climb_value lib d spec f.value start end, refl, all, low, high)

    -- ClimbNext, for a spec whose range is not empty and whose flag, if it is on, has a value in the
    -- range (the end excluded), gives one or two dictionaries. Each differs from the given one at the
    -- spec alone: the flag is turned on or off, or its value moves by one within the range.
    pub climb_next-AllNeighbours :
        (d : FlagsDict K) (spec : K)
        → IsRange (lib.range_of spec)
        → IsOff (lib.range_of spec) (lookup spec d)
        → (ds : List (FlagsDict K)) × (climb_next lib d spec ≡ ok ds)
          × AllNeighbours (lib.range_of spec) spec d ds
          × (1 ≤ length ds)
          × (length ds ≤ 2)
    climb_next-AllNeighbours d spec valid inside =
        unfold climb_next in
        climb_from-AllNeighbours d spec (lookup spec d) (lib.range_of spec) refl refl valid inside

    decrease_from-lem :
        (d : FlagsDict K) (spec : K) (f : Flag K) (range : Option (ℕ × ℕ))
        → lookup spec d ≡ some f
        → InRange range f.value
        → (d' : FlagsDict K) × (decrease_from lib d spec (some f) range ≡ ok d')
          × IsNeighbour range spec d d'
          × ((g : Flag K) → lookup spec d' ≡ some g → g.value < f.value)
    unfolding decrease_from decrease_value
    decrease_from-lem d spec f none at inside = (
      delete spec d,
      refl,
      delete-IsNeighbour none spec d (some f) at tt,
      λ g h. absurd (let p = lookup-delete_self spec d in cc),
    )
    decrease_from-lem d spec f (some (start, end)) at inside =
        elim (Bool-cases (f.value == start)) [
          | inl low ↦ (
            delete spec d,
            rw low,
            delete-IsNeighbour (some (start, end)) spec d (some f) at
                ((==_iff f.value start).0 low),
            λ g h. absurd (let p = lookup-delete_self spec d in cc),
          )
          | inr high ↦
              let above : start < f.value = ground arith in
              (
                insert spec (flag_of spec (f.value - 1)) d,
                rw (high, not_zero above),
                insert-IsNeighbour (some (start, end)) spec d (some f) (flag_of spec (f.value - 1))
                    at ((omega arith, omega arith), inr (omega arith)),
                λ g h.
                    let p = lookup-insert_self spec (flag_of spec (f.value - 1)) d in ground arith,
              )
        ]
      where
        not_zero : {start v : ℕ} → start < v → (v == 0) ≡ false
        not_zero h = ground arith

    decrease_flag-eq :
        (d : FlagsDict K) (spec : K) (f : Flag K)
        → lookup spec d ≡ some f
        → decrease_flag lib d spec ≡ decrease_from lib d spec (some f) (lib.range_of spec)
    unfolding decrease_flag
    decrease_flag-eq d spec f at = rw at

    -- _DecreaseFlag, for a flag that is on with a value in its range, differs from the given dictionary
    -- at the spec alone; the flag is turned off, or its value is one less and still in the range.
    pub decrease_flag-IsNeighbour :
        (d : FlagsDict K) (spec : K) (f : Flag K)
        → lookup spec d ≡ some f
        → InRange (lib.range_of spec) f.value
        → (d' : FlagsDict K) × (decrease_flag lib d spec ≡ ok d')
          × IsNeighbour (lib.range_of spec) spec d d'
          × ((g : Flag K) → lookup spec d' ≡ some g → g.value < f.value)
    decrease_flag-IsNeighbour d spec f at inside =
        let (d', p, near, less) = decrease_from-lem d spec f (lib.range_of spec) at inside in
        (d', decrease_flag-eq d spec f at ∙ p, near, less)
