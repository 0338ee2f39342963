-- ===== src/Ncode/Parse/Tests.antt =====
-- Numbers parsed at eight bits by a function for digits.
use mostly.Common.{
  ℕ, ◌+◌, ◌*◌, ◌-◌, ◌%◌, ◌^◌, ◌<◌, ◌≤◌, ◌≡◌, ◌≢◌, ◌⊎◌, refl, List, [], ◌∷◌, Option, none, some,
  arith, ltb, if◌then◌else◌,
}
use mostly.Decimal.{ℤ, pos}
use mostly.Ncode.Parse.{parse_base, parse_number, parse_base_lem}

abbrev value_of : ℕ → List ℕ → ℕ
value_of n [] = n
value_of n (c ∷ s) = value_of (10 * n + (c - 48)) s

-- Digits in the base ten; the empty text denotes nothing.
abbrev digits : List ℕ → ℤ → Option ℕ
digits [] base = none
digits (c ∷ s) base = some (value_of 0 (c ∷ s))

-- The empty text is the error 1, and a number out of range is the error 2.
abbrev known : List ℕ → ℤ → ℕ → ℕ × Option ℕ
known s base bits = elim (digits s base) [
  | none ↦ (0, some 1)
  | some n ↦ if ltb n (2 ^ bits) then (n, none) else (2 ^ bits - 1, some 2)
]

known_in_range :
    (s : List ℕ) (base : ℤ) (bits n : ℕ)
    → 0 < bits
    → bits ≤ 64
    → digits s base ≡ some n
    → n < 2 ^ bits
    → known s base bits ≡ (n, none)
known_in_range s base bits n some_bits few is below = ground arith

known_out_of_range :
    (s : List ℕ) (base : ℤ) (bits n : ℕ)
    → 0 < bits
    → bits ≤ 64
    → digits s base ≡ some n
    → 2 ^ bits ≤ n
    → known s base bits ≡ (2 ^ bits - 1, some 2)
known_out_of_range s base bits n some_bits few is beyond = ground arith

cut_to_a_byte : parse_number known 8 (51 ∷ 48 ∷ 48 ∷ []) ≡ (44, none)
unfolding parse_number parse_base
cut_to_a_byte = refl

parse_base_example :
    ((300 < 2 ^ 8) × (parse_base known 8 (51 ∷ 48 ∷ 48 ∷ []) (pos 10) ≡ (300, none)))
    ⊎ (((2 ^ 8 ≤ 300)
          × (300 < 2 ^ 64)
          × (parse_base known 8 (51 ∷ 48 ∷ 48 ∷ []) (pos 10) ≡ (300 % 2 ^ 8, none))
          × (300 % 2 ^ 8 ≢ 300))
        ⊎ ((2 ^ 64 ≤ 300)
            × (parse_base known 8 (51 ∷ 48 ∷ 48 ∷ []) (pos 10) ≡ ((2 ^ 64 - 1) % 2 ^ 8, some 2))))
parse_base_example =
    parse_base_lem known digits 2 known_in_range known_out_of_range 8 (51 ∷ 48 ∷ 48 ∷ []) (pos 10)
      300 (omega arith) refl
