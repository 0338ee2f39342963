-- ===== src/Ncode/Twist/Tests.antt =====
-- Runs of the twists, and the theorems at concrete slices.
use mostly.Common.{ℕ, ◌+◌, ◌≡◌, refl, [], ◌∷◌, Option, none, some, length, leb, if◌then◌else◌}
use mostly.Ncode.Twist.{CallbackError, err_skip, failure, twist_any_with_error, twist_error_loop}
use mostly.Ncode.Twist.Laws.{twist_any_with_error_lem, up_to_failure}

-- Doubles a number, skips 0, and refuses numbers from 10 on.
abbrev parse : ℕ → ℕ × Option CallbackError
parse n =
    if leb 10 n
    then (77, some (failure n))
    else (if leb n 0 then (88, some err_skip) else (n + n, none))

skip_and_stop :
    twist_any_with_error 0 (3 ∷ 0 ∷ 4 ∷ 12 ∷ 5 ∷ []) parse
    ≡ (6 ∷ 0 ∷ 8 ∷ 0 ∷ 0 ∷ [], some (failure 12))
unfolding twist_any_with_error twist_error_loop
skip_and_stop = refl

twist_any_with_error_example :
    (twist_any_with_error 0 (3 ∷ 12 ∷ 5 ∷ []) parse ≡ up_to_failure 0 parse (3 ∷ 12 ∷ 5 ∷ []))
    × (length (twist_any_with_error 0 (3 ∷ 12 ∷ 5 ∷ []) parse).0 ≡ 3)
twist_any_with_error_example = twist_any_with_error_lem 0 parse (3 ∷ 12 ∷ 5 ∷ [])
