-- ===== src/Flags.antt =====
-- flagpkg/flagpkg.go: the inverted Boolean flag, over strconv.ParseBool and strconv.FormatBool as
-- parameters. The variable that the flag points to is the state.
pub mod Tests
use mostly.Common.{
  ℕ, ◌≡◌, refl, ap, sym, ◌∙◌, List, [], ◌∷◌, ◌++◌, Bool, true, false, not, Option, none,
  Option-cases, some, arith, ◌⊎◌, inl, inr,
}

-- The two functions of strconv: ParseBool returns false beside an error, and it reads what FormatBool
-- writes.
pub record Strconv (E : Type 0) : Type 0 where
  pub parse_bool : List ℕ → Bool × Option E
  pub format_bool : Bool → List ℕ
  pub parse_bool_error : (s : List ℕ) (e : E) → (parse_bool s).1 ≡ some e → (parse_bool s).0 ≡ false
  pub parse_bool-format_bool : (b : Bool) → parse_bool (format_bool b) ≡ (b, none)

-- The error of Set, around that of ParseBool.
pub data SetError (E : Type 0) : Type 0 where
  invalid_bool_value : E → SetError E

module _ {E : Type 0} (strconv : Strconv E) where
  open strconv use {parse_bool, format_bool}

  -- newBoolValue: what stood in the variable is gone.
  unfoldable pub new_bool_value : Bool → Bool → Bool
  new_bool_value val p = val

  -- Set: the variable and the error.
  unfoldable pub set_flag : List ℕ → Bool → Bool × Option (SetError E)
  set_flag s b =
      let (v, err) = parse_bool s in
      (not v, elim err [ none ↦ none | some e ↦ some (invalid_bool_value e) ])

  unfoldable pub string : Bool → List ℕ
  string b = format_bool b

  -- The values of the flag on a command line, in order, up to the first error.
  unfoldable pub set_each : List (List ℕ) → Bool → Bool × Option (SetError E)
  unfolding set_flag
  set_each [] b = (b, none)
  set_each (s ∷ rest) b =
      let (c, err) = set_flag s b in
      let after = set_each rest c in elim err [ none ↦ after | some e ↦ (c, some e) ]

  set_each-append :
      (before : List (List ℕ)) (last : List ℕ) (c b : Bool)
      → set_each before c ≡ (b, none)
      → set_each (before ++ last ∷ []) c ≡ set_each (last ∷ []) b
  unfolding set_each set_flag
  set_each-append [] last c b h = ground arith
  set_each-append (s ∷ rest) last c b h = elim (Option-cases (parse_bool s).1) [
    | inl e ↦ ground (arith, set_each-append rest last (not (parse_bool s).0) b)
    | inr (x, e) ↦ absurd (ground arith)
  ]

  set_each_valid :
      (s : List ℕ) (b v : Bool) → parse_bool s ≡ (v, none) → set_each (s ∷ []) b ≡ (not v, none)
  unfolding set_each set_flag
  set_each_valid s b v h = ground arith

  set_each_invalid :
      (s : List ℕ) (b : Bool) (e : E)
      → (parse_bool s).1 ≡ some e
      → set_each (s ∷ []) b ≡ (true, some (invalid_bool_value e))
  unfolding set_each set_flag
  set_each_invalid s b e h = rw (h, strconv.parse_bool_error s e h) refl

  -- Where the values before the last are all valid, the last one alone decides: a valid one sets the
  -- variable to its inverse with no error, an invalid one sets it to true and reports the error. With
  -- no value at all the variable keeps the value that newBoolValue gave it.
  pub set_each_lem :
      (before : List (List ℕ)) (last : List ℕ) (val p b : Bool)
      → set_each before (new_bool_value val p) ≡ (b, none)
      → (((v : Bool) × (parse_bool last ≡ (v, none))
            × (set_each (before ++ last ∷ []) (new_bool_value val p) ≡ (not v, none)))
          ⊎ ((e : E) × ((parse_bool last).1 ≡ some e)
              × (set_each (before ++ last ∷ []) (new_bool_value val p)
                  ≡ (true, some (invalid_bool_value e)))))
        × (set_each [] (new_bool_value val p) ≡ (val, none))
  unfolding set_each set_flag new_bool_value
  set_each_lem before last val p b h =
      let both = set_each-append before last (new_bool_value val p) b h in
      (
        elim (Option-cases (parse_bool last).1) [
          | inl fine ↦ inl (
            (parse_bool last).0,
            ground arith,
            both ∙ set_each_valid last b (parse_bool last).0 (ground arith),
          )
          | inr (e, bad) ↦ inr (e, bad, both ∙ set_each_invalid last b e bad)
        ],
        refl,
      )
