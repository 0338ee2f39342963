-- ===== src/Stackerr/Errors.antt =====
-- stackerr/stackerror.go: the errors, Wrap and Errorf.
use mostly.Common.{
  ℕ, List, [], ◌∷◌, Bool, true, false, not, ◌&&◌, ◌||◌, Option, none, some, ◌==◌, if◌then◌else◌,
}
use mostly.Stackerr.Paths.{FuncCallerInfo}

-- An error: one of another package, one that wraps another (as `%w` of fmt.Errorf does), or a
-- *StackError.
pub data AnyError : Type 0 where
  plain : List ℕ → AnyError
  wrapping : List ℕ → AnyError → AnyError
  stacked : AnyError → FuncCallerInfo → AnyError

-- Error(), which a StackError has from the error in it.
unfoldable pub error_text : AnyError → List ℕ
error_text (plain t) = t
error_text (wrapping t e) = t
error_text (stacked e at) = error_text e

-- Unwrap; `none` is nil.
unfoldable pub unwrap : AnyError → Option AnyError
unwrap (plain t) = none
unwrap (wrapping t e) = some e
unwrap (stacked e at) = some e

-- Wrap, where `info` is what GetFuncCallerInfo says (`none` is its panic): the outer `none` is the
-- panic, the inner a nil *StackError.
unfoldable pub wrap_error : Option AnyError → Option FuncCallerInfo → Option (Option AnyError)
wrap_error none info = some none
wrap_error (some e) none = none
wrap_error (some e) (some at) = some (some (stacked e at))

-- An argument of Errorf, an error or not.
pub data Arg : Type 0 where
  error_arg : AnyError → Arg
  other_arg : List ℕ → Arg

unfoldable pub contains_err : List Arg → Bool
contains_err [] = false
contains_err (error_arg e ∷ args) = true
contains_err (other_arg o ∷ args) = contains_err args

-- `strings.Contains(format, "%w")`.
unfoldable pub contains_wrap_verb : List ℕ → Bool
contains_wrap_verb [] = false
contains_wrap_verb (c ∷ []) = false
contains_wrap_verb (c ∷ d ∷ s) = (c == b'%' && d == b'w') || contains_wrap_verb (d ∷ s)

abbrev pub is_empty : List Arg → Bool
is_empty [] = true
is_empty (a ∷ args) = false

-- Errorf, where `sprint` is fmt.Errorf and `debug` the variable DEBUG; `none` is the panic. Without
-- DEBUG the complaint is logged.
unfoldable pub errorf :
    Bool → (List ℕ → List Arg → AnyError) → List ℕ → List Arg → FuncCallerInfo → Option AnyError
unfolding contains_err contains_wrap_verb
errorf debug sprint format args at =
    if not (is_empty args) && (not (contains_wrap_verb format) && (contains_err args && debug))
    then none
    else some (stacked (sprint format args) at)
