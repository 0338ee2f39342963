-- ===== src/Stackerr/Format.antt =====
-- stackerr/stackerror.go: Format, and how nested errors are printed.
use native.Mathlib.Nat.{pow-suc}
use mostly.Common.{
  ◌⊎◌, inl, inr, Bool-cases, ℕ, suc, ◌+◌, ◌*◌, ◌^◌, ◌≡◌, refl, ap, sym, ◌∙◌, List, [], ◌∷◌, ◌++◌,
  Bool, true, ◌&&◌, ◌||◌, Option, none, some, ◌==◌, if◌then◌else◌, length, arith,
}
use mostly.Stackerr.Paths.{FuncCallerInfo}
use mostly.Stackerr.Errors.{AnyError, plain, wrapping, stacked, error_text}

-- What `%+v` prints, in pieces: a text, or the line of a place.
pub data Piece : Type 0 where
  text : List ℕ → Piece
  from : FuncCallerInfo → Piece

-- Format at `%+v`. An error of another package prints its text. Behind its place a StackError prints the
-- nearest StackError that errors.As finds in the error in it, `format_found`.
unfoldable mutual
  pub format_plus : AnyError → List Piece
  format_plus (plain t) = text t ∷ []
  format_plus (wrapping t e) = text t ∷ []
  format_plus (stacked e at) = format_plus e ++ (from at ∷ format_found e)

  pub format_found : AnyError → List Piece
  format_found (plain t) = []
  format_found (wrapping t e) = format_found e
  format_found (stacked e at) = format_plus e ++ (from at ∷ format_found e)

-- errors.As at a *StackError.
unfoldable pub find_stack : AnyError → Option AnyError
find_stack (plain t) = none
find_stack (wrapping t e) = find_stack e
find_stack (stacked e at) = some (stacked e at)

abbrev pub format_or_none : Option AnyError → List Piece
format_or_none none = []
format_or_none (some e) = format_plus e

-- Whose format is printed behind the place.
format_found-find_stack : (e : AnyError) → format_found e ≡ format_or_none (find_stack e)
unfolding format_plus format_found find_stack
format_found-find_stack (plain t) = refl
format_found-find_stack (wrapping t e) = format_found-find_stack e
format_found-find_stack (stacked e at) = refl

-- Format of a StackError, for a verb and with the flag `+` or not; `quote` is `%q` of a text. What `%v`
-- prints without the flag is what `%s` prints, by the fallthrough.
unfoldable pub format : (List ℕ → List ℕ) → Bool → ℕ → AnyError → FuncCallerInfo → List Piece
unfolding format_plus error_text
format quote plus verb e at =
    if verb == b'v' && plus
    then format_plus (stacked e at)
    else if verb == b'v' || verb == b's'
    then text (error_text (stacked e at)) ∷ []
    else if verb == b'q'
    then text (quote (error_text (stacked e at))) ∷ []
    else []

-- How often a place is printed.
abbrev pub places : List Piece → ℕ
places [] = 0
places (text t ∷ ps) = places ps
places (from at ∷ ps) = suc (places ps)

-- An error in StackErrors, the innermost first.
abbrev pub stack_up : AnyError → List FuncCallerInfo → AnyError
stack_up e [] = e
stack_up e (at ∷ more) = stack_up (stacked e at) more

places-append : (ps qs : List Piece) → places (ps ++ qs) ≡ places ps + places qs
places-append [] qs = omega arith
places-append (text t ∷ ps) qs = places-append ps qs
places-append (from at ∷ ps) qs = omega (arith, places-append ps qs)

-- An error and what errors.As finds in it print alike, as to places.
places_doubled :
    (e : AnyError) (at : FuncCallerInfo)
    → (places (format_plus (stacked e at)) ≡ places (format_plus e) + suc (places (format_found e)))
      × (places (format_found (stacked e at)) ≡ places (format_plus (stacked e at)))
unfolding format_plus format_found
places_doubled e at = (places-append (format_plus e) (from at ∷ format_found e), refl)

doubled_step : (k m n : ℕ) → m ≡ k + suc k → suc m * 2 ^ n ≡ suc k * 2 ^ suc n
doubled_step k m n h =
    ap (λ j. suc j * 2 ^ n) h ∙ twice (2 ^ n) ∙ ap (λ y. suc k * y) (omega (arith, pow-suc 2 n))
  where
    twice : (x : ℕ) → suc (k + suc k) * x ≡ suc k * (2 * x)
    twice x = omega arith

stack_up-error_text :
    (e : AnyError) (ats : List FuncCallerInfo) → error_text (stack_up e ats) ≡ error_text e
unfolding error_text
stack_up-error_text e [] = refl
stack_up-error_text e (at ∷ more) = stack_up-error_text (stacked e at) more

stack_up-format_plus :
    (e : AnyError) (ats : List FuncCallerInfo)
    → places (format_plus e) ≡ places (format_found e)
    → suc (places (format_plus (stack_up e ats))) ≡ suc (places (format_plus e)) * 2 ^ length ats
stack_up-format_plus e [] alike = omega arith
stack_up-format_plus e (at ∷ more) alike =
    let (doubled, same) = places_doubled e at in
    stack_up-format_plus (stacked e at) more (sym same)
    ∙ doubled_step (places (format_plus e)) (places (format_plus (stacked e at))) (length more)
        (doubled ∙ ap (λ k. places (format_plus e) + suc k) (sym alike))

-- At every other verb and flag, what is printed depends on the text alone.
format_text :
    (quote : List ℕ → List ℕ) (plus : Bool) (verb : ℕ) (e f : AnyError) (at there : FuncCallerInfo)
    → error_text e ≡ error_text f
    → ((verb ≡ b'v') × (plus ≡ true))
      ⊎ (format quote plus verb e at ≡ format quote plus verb f there)
unfolding format
format_text quote plus verb e f at there same = elim (Bool-cases (verb == b'v' && plus)) [
  | inl both ↦ inl (ground arith)
  | inr other ↦ inr (unfold error_text in (rw (format, other, same) refl))
]

-- Around a StackError, each further StackError doubles the number of the places that `%+v` prints, and
-- adds one, while the text of the error stays what it is: around an error of another package, n places
-- are printed 2 ^ n - 1 times altogether. `%+v` of an error prints the StackError in it that errors.As
-- finds once more behind the place. At every other verb, and at `%v` without the flag, what is printed
-- is the same for every number of StackErrors.
pub stack_up-places :
    (e : AnyError) (t : List ℕ) (at there : FuncCallerInfo) (ats : List FuncCallerInfo)
    (quote : List ℕ → List ℕ) (plus : Bool) (verb : ℕ)
    → (suc (places (format_plus (stack_up (stacked e at) ats)))
        ≡ suc (places (format_plus (stacked e at))) * 2 ^ length ats)
      × (suc (places (format_plus (stack_up (plain t) ats))) ≡ 2 ^ length ats)
      × (error_text (stack_up e ats) ≡ error_text e)
      × (format_plus (stacked e at) ≡ format_plus e ++ (from at ∷ format_or_none (find_stack e)))
      × (((verb ≡ b'v') × (plus ≡ true))
          ⊎ (format quote plus verb (stack_up e ats) there ≡ format quote plus verb e at))
unfolding format_plus format_found
stack_up-places e t at there ats quote plus verb =
    let (doubled, same) = places_doubled e at in
    (
      stack_up-format_plus (stacked e at) ats (sym same),
      stack_up-format_plus (plain t) ats refl ∙ omega arith,
      stack_up-error_text e ats,
      ap (λ ps. format_plus e ++ (from at ∷ ps)) (format_found-find_stack e),
      format_text quote plus verb (stack_up e ats) e there at (stack_up-error_text e ats),
    )
