-- ===== src/Bestflags/Flags.antt =====
-- bestflags/flags.py, flags_util.py and _DecreaseFlag of iterative_elimination.py: flags, dictionaries of
-- flags and their neighbours. Python's `re` finds the range of a numeric spec and `random` draws the
-- value of a new flag: `range_of` and `randint` are parameters. A value is a natural number, since -1
-- asks the constructor for a drawn one.
pub mod Neighbours
mod Tests
use external_toolchain_utils.Prelude.{
  ℕ, ◌+◌, ◌-◌, Bool, true, false, Option, none, some, List, [], ◌∷◌, ◌++◌, map, Result, ◌>>=◌, ◌>>◌,
  assert, some_or_raise, ltb, ◌==◌, if◌then◌else◌, assertion_error, key_error, ok, err, Eq,
}
use external_toolchain_utils.Prelude.Dict.{lookup, insert, delete, keys}

pub record Flag (K : Type 0) : Type 0 where
  pub spec : K
  pub value : ℕ

abbrev pub FlagsDict : Type 0 → Type 0
FlagsDict K = List (K × Flag K)

-- What `Search` gives: the start and the end of a numeric spec.
pub record Library (K : Type 0) : Type 0 where
  pub range_of : K → Option (ℕ × ℕ)
  pub randint : ℕ → ℕ → ℕ

module _ {K : Type 0} (lib : Library K) where
  -- The constructor without a value.
  pub draw_value : Option (ℕ × ℕ) → Result ℕ
  draw_value none = ok 0
  draw_value (some (start, end)) = do assert (ltb start end); ok (lib.randint start end)

  pub random_flag : K → Result (Flag K)
  unfolding draw_value
  random_flag spec = do
    value ← draw_value (lib.range_of spec)
    ok (record { spec = spec; value = value })

-- The constructor with a value that is not -1.
abbrev pub flag_of : {K : Type 0} → K → ℕ → Flag K
flag_of spec value = record { spec = spec; value = value }

module _ {K : Type 0} ⦃e : Eq K⦄ where
  -- `dict([(flag.GetSpec(), flag) for flag in flag_array])`
  pub flag_set_from : List (Flag K) → FlagsDict K → FlagsDict K
  flag_set_from [] d = d
  flag_set_from (f ∷ fs) d = flag_set_from fs (insert f.spec f d)

  unfoldable pub flag_set : List (Flag K) → FlagsDict K
  unfolding flag_set_from
  flag_set fs = flag_set_from fs []

  -- FlagSet.__getitem__
  unfoldable pub get_flag : FlagsDict K → K → Result (Flag K)
  get_flag d spec = some_or_raise key_error (lookup spec d)

  abbrev pub has_flag : FlagsDict K → K → Bool
  has_flag d spec = elim (lookup spec d) [ none ↦ false | some f ↦ true ]

  module _ (lib : Library K) where
    -- A flag that is not in the dictionary is turned on, at its start.
    pub turn_on : FlagsDict K → K → Option (ℕ × ℕ) → Result (List (FlagsDict K))
    turn_on d spec (some (start, end)) = ok (insert spec (flag_of spec start) d ∷ [])
    turn_on d spec none = do flag ← random_flag lib spec; ok (insert spec flag d ∷ [])

    -- The neighbours along a numeric flag that is on.
    pub climb_value : FlagsDict K → K → (value start end : ℕ) → List (FlagsDict K)
    climb_value d spec value start end =
        (if ltb (value + 1) end then insert spec (flag_of spec (value + 1)) d ∷ [] else [])
        ++ (if ltb start value
            then insert spec (flag_of spec (value - 1)) d ∷ []
            else delete spec d ∷ [])

    pub climb_from :
        FlagsDict K → K → Option (Flag K) → Option (ℕ × ℕ) → Result (List (FlagsDict K))
    climb_from d spec none range = turn_on d spec range
    climb_from d spec (some flag) none = ok (delete spec d ∷ [])
    climb_from d spec (some flag) (some (start, end)) = ok (climb_value d spec flag.value start end)

    -- ClimbNext
    unfoldable pub climb_next : FlagsDict K → K → Result (List (FlagsDict K))
    unfolding climb_from
    climb_next d spec = climb_from d spec (lookup spec d) (lib.range_of spec)

    -- A value of 0 that is not the start would become -1, for which the constructor draws a value.
    pub decrease_value : FlagsDict K → K → (value start : ℕ) → Result (FlagsDict K)
    decrease_value d spec value start =
        if value == start
        then ok (delete spec d)
        else if value == 0
        then (random_flag lib spec >>= λ flag. ok (insert spec flag d))
        else ok (insert spec (flag_of spec (value - 1)) d)

    pub decrease_from : FlagsDict K → K → Option (Flag K) → Option (ℕ × ℕ) → Result (FlagsDict K)
    decrease_from d spec none range = err assertion_error
    decrease_from d spec (some flag) none = ok (delete spec d)
    decrease_from d spec (some flag) (some (start, end)) = decrease_value d spec flag.value start

    -- _DecreaseFlag
    unfoldable pub decrease_flag : FlagsDict K → K → Result (FlagsDict K)
    unfolding decrease_from
    decrease_flag d spec = decrease_from d spec (lookup spec d) (lib.range_of spec)

-- FormattedForUse of a flag and of a FlagSet. `fill` is the substitution of a value in a spec by
-- Python's `re`, and `sorted` is Python's.
abbrev pub formatted_flag : {K : Type 0} → (ℕ → K → K) → Flag K → K
formatted_flag fill flag = fill flag.value flag.spec

abbrev pub formatted_flags : {K : Type 0} → (ℕ → K → K) → (List K → List K) → FlagsDict K → List K
formatted_flags fill sorted d = sorted (map (λ entry. formatted_flag fill entry.1) d)
