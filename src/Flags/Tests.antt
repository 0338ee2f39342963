-- ===== src/Flags/Tests.antt =====
-- The inverted flag on a short command line, with a strconv that knows one letter for each value.
use mostly.Common.{
  ℕ, ◌≡◌, refl, List, [], ◌∷◌, Bool, true, false, Option, none, some, if◌then◌else◌, ◌==◌, arith,
}
use mostly.Flags.{Strconv}

-- "t", "f", and anything else, which is the error 1.
abbrev pub letter : List ℕ → Bool × Option ℕ
letter [] = (false, some 1)
letter (c ∷ d ∷ s) = (false, some 1)
letter (c ∷ []) =
    if c == 116 then (true, none) else (if c == 102 then (false, none) else (false, some 1))

abbrev pub write_letter : Bool → List ℕ
write_letter true = 116 ∷ []
write_letter false = 102 ∷ []

pub letter_error : (s : List ℕ) (e : ℕ) → (letter s).1 ≡ some e → (letter s).0 ≡ false
letter_error [] e h = refl
letter_error (c ∷ d ∷ s) e h = refl
letter_error (c ∷ []) e h = ground arith

pub letter-write_letter : (b : Bool) → letter (write_letter b) ≡ (b, none)
letter-write_letter true = refl
letter-write_letter false = refl

abbrev pub letters : Strconv ℕ
letters = record {
  parse_bool = letter;
  format_bool = write_letter;
  parse_bool_error = letter_error;
  parse_bool-format_bool = letter-write_letter;
}
