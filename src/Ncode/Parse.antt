-- ===== src/Ncode/Parse.antt =====
-- ncode/parse.go: ParseNumber and ParseBase at an unsigned type of `width` bits, over strconv.ParseUint
-- as a parameter.
mod Tests
use mostly.Common.{
  ℕ, zero, suc, ◌-◌, ◌%◌, ◌^◌, ◌<◌, ◌≤◌, ◌≡◌, ◌≢◌, ◌⊎◌, inl, inr, refl, sym, ap, ◌∙◌, subst, List,
  Option, none, some, arith, ltb, ltb→lt, Bool-cases,
}
use native.Mathlib.Nat.{mod-lt, mod-eq_of_lt, pow-suc, pow-le-pow_right}
use mostly.Decimal.{ℤ, pos}

two_pow_pos : (width : ℕ) → 0 < 2 ^ width
two_pow_pos zero = omega arith
two_pow_pos (suc width) = omega (arith, two_pow_pos width, pow-suc 2 width)

-- The bit size with which ParseBase calls ParseUint, whatever its type is.
abbrev bit_size : ℕ
bit_size = 64

module _ {E : Type 0} (parse_uint : List ℕ → ℤ → ℕ → ℕ × Option E) where
  -- The conversion T(n) keeps the lowest bits, whatever the error.
  unfoldable pub parse_base : ℕ → List ℕ → ℤ → ℕ × Option E
  parse_base width s base = let (n, err) = parse_uint s base bit_size in (n % 2 ^ width, err)

  unfoldable pub parse_number : ℕ → List ℕ → ℕ × Option E
  unfolding parse_base
  parse_number width s = parse_base width s (pos 10)

  -- What strconv documents of ParseUint with a bit size from 1 to 64, for a text that denotes a number in
  -- the base: the number, if it has at most so many bits, and else the largest one with the error
  -- ErrRange.
  module _ (denotes : List ℕ → ℤ → Option ℕ) (range_error : E)
      (in_range : (s : List ℕ) (base : ℤ) (bits n : ℕ)
        → 0 < bits
        → bits ≤ 64
        → denotes s base ≡ some n
        → n < 2 ^ bits
        → parse_uint s base bits ≡ (n, none))
      (out_of_range : (s : List ℕ) (base : ℤ) (bits n : ℕ)
        → 0 < bits
        → bits ≤ 64
        → denotes s base ≡ some n
        → 2 ^ bits ≤ n
        → parse_uint s base bits ≡ (2 ^ bits - 1, some range_error)) where
    -- ParseBase at a type of at most 64 bits, for a text that denotes a number in the base, returns the
    -- number, where the type holds it. A number that the type does not hold, of up to 64 bits, is cut to
    -- the lowest bits, which are another number, and there is no error. Only a number of more than 64
    -- bits is an error, the one of ParseUint.
    pub parse_base_lem :
        (width : ℕ) (s : List ℕ) (base : ℤ) (n : ℕ)
        → width ≤ 64
        → denotes s base ≡ some n
        → ((n < 2 ^ width) × (parse_base width s base ≡ (n, none)))
          ⊎ (((2 ^ width ≤ n)
                × (n < 2 ^ 64)
                × (parse_base width s base ≡ (n % 2 ^ width, none))
                × (n % 2 ^ width ≢ n))
              ⊎ ((2 ^ 64 ≤ n)
                  × (parse_base width s base ≡ ((2 ^ 64 - 1) % 2 ^ width, some range_error))))
    unfolding parse_base
    parse_base_lem width s base n small is =
        let fits : 2 ^ width ≤ 2 ^ 64 = pow-le-pow_right (omega arith) small in
        elim (Bool-cases (ltb n (2 ^ 64))) [
          | inr large ↦
              let beyond : 2 ^ 64 ≤ n = ground arith in
              inr (
                inr
                  (beyond, ap cut (out_of_range s base 64 n (omega arith) (omega arith) is beyond)))
          | inl below ↦
              let parsed =
                in_range s base 64 n (omega arith) (omega arith) is (ltb→lt n (2 ^ 64) below) in
              elim (Bool-cases (ltb n (2 ^ width))) [
                | inl held ↦
                    let inside = ltb→lt n (2 ^ width) held in
                    inl (inside, ap cut parsed ∙ ap (λ m. (m, none)) (mod-eq_of_lt inside))
                | inr cut_off ↦
                    let over : 2 ^ width ≤ n = ground arith in
                    inr (
                      inl (
                        over,
                        ltb→lt n (2 ^ 64) below,
                        ap cut parsed,
                        (λ same. omega (
                          arith,
                          subst (λ m. m < 2 ^ width) same (mod-lt n (two_pow_pos width)),
                          over,
                        )),
                      ))
              ]
        ]
      where
        cut : ℕ × Option E → ℕ × Option E
        cut (m, err) = (m % 2 ^ width, err)
