-- ===== src/Stackerr/Tests.antt =====
-- Paths, and an error in three StackErrors.
use mostly.Common.{ℕ, suc, ◌*◌, ◌^◌, ◌≡◌, ◌≢◌, ◌↔◌, refl, List, [], ◌∷◌, ◌++◌, true, none, some}
use mostly.Stackerr.Paths.{
  is_slash, ends_with_slash, FuncCallerInfo, clean_module_path, behind_prefix,
  clean_module_path-suffix,
}
use mostly.Stackerr.Format.{
  from, format, format_plus, find_stack, format_or_none, places, stack_up, stack_up-places,
}
use mostly.Common.{◌⊎◌, ℕ, true}
use mostly.Stackerr.Errors.{
  AnyError, plain, wrapping, stacked, error_text, error_arg, errorf, wrap_error,
}

abbrev pwd : List ℕ
pwd = b'/' ∷ b'a' ∷ []

abbrev prefix : List ℕ
prefix = b'm' ∷ b'/' ∷ []

-- A directory beside the working directory, whose name the working directory's begins.
beside :
    clean_module_path prefix pwd (b'/' ∷ b'a' ∷ b'2' ∷ b'/' ∷ b'x' ∷ []) ≡ b'2' ∷ b'/' ∷ b'x' ∷ []
unfolding clean_module_path behind_prefix ends_with_slash
beside = refl

clean_module_path-suffix_example :
    ((front : List ℕ) × (prefix ++ pwd ≡ front ++ clean_module_path prefix pwd (prefix ++ pwd)))
    × ((clean_module_path prefix pwd (prefix ++ pwd) ≡ []) ↔ (prefix ++ pwd ≡ []))
    × ((is_slash pwd ≡ true)
        ⊎ ((ends_with_slash pwd ≡ true)
            ⊎ ((behind_prefix (pwd ++ (b'/' ∷ b'x' ∷ b'g' ∷ [])) prefix ≢ none)
                ⊎ (clean_module_path prefix pwd (pwd ++ (b'/' ∷ b'x' ∷ b'g' ∷ []))
                    ≡ b'x' ∷ b'g' ∷ []))))
clean_module_path-suffix_example =
    clean_module_path-suffix prefix pwd (prefix ++ pwd) (b'g' ∷ []) b'x'

abbrev here : FuncCallerInfo
here = record { funcname = b'f' ∷ []; filetag = b'x' ∷ b':' ∷ b'1' ∷ [] }

abbrev inner : AnyError
inner = wrapping (b'w' ∷ []) (stacked (plain (b'e' ∷ [])) here)

-- An argument that is an error needs `%w`.
needs_wrap :
    errorf true (λ format args. plain format) (b'%' ∷ b'v' ∷ []) (error_arg inner ∷ []) here ≡ none
unfolding errorf
needs_wrap = refl

wrap_nil : wrap_error none (some here) ≡ some none
unfolding wrap_error
wrap_nil = refl

stack_up-places_example :
    (suc (places (format_plus (stack_up (stacked inner here) (here ∷ here ∷ []))))
      ≡ suc (places (format_plus (stacked inner here))) * 2 ^ 2)
    × (suc (places (format_plus (stack_up (plain []) (here ∷ here ∷ [])))) ≡ 2 ^ 2)
    × (error_text (stack_up inner (here ∷ here ∷ [])) ≡ error_text inner)
    × (format_plus (stacked inner here)
        ≡ format_plus inner ++ (from here ∷ format_or_none (find_stack inner)))
    × ((◌≡◌ {A = ℕ} b's' b'v' × (true ≡ true))
        ⊎ (format (λ s. b'"' ∷ s) true b's' (stack_up inner (here ∷ here ∷ [])) here
            ≡ format (λ s. b'"' ∷ s) true b's' inner here))
stack_up-places_example =
    stack_up-places inner [] here here (here ∷ here ∷ []) (λ s. b'"' ∷ s) true b's'
