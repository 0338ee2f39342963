-- ===== src/Decimal.antt =====
-- Integers as strconv.Itoa prints them, in decimal bytes.
use mostly.Common.{
  ℕ, zero, suc, ◌+◌, ◌-◌, ◌*◌, ◌/◌, ◌%◌, ◌^◌, ◌≤◌, ◌<◌, ◌≡◌, inl, inr, refl, ap, sym, ◌∙◌, List, [],
  ◌∷◌, true, ◌&&◌, Option, none, some, ltb, leb, ◌==◌, if◌then◌else◌, length, arith, Bool-cases,
}

-- `negsuc n` is -(n + 1).
pub data ℤ : Type 0 where
  pos : ℕ → ℤ
  negsuc : ℕ → ℤ

-- The digits of a number in front of `out`; a number has at most as many digits as it is large, and
-- one more.
unfoldable pub digits : ℕ → ℕ → List ℕ → List ℕ
digits zero n out = out
digits (suc rounds) n out =
    let more = digits rounds (n / 10) ((b'0' + n % 10) ∷ out) in
    if ltb n 10 then (b'0' + n) ∷ out else more

unfoldable pub itoa : ℤ → List ℕ
unfolding digits
itoa (pos n) = digits (suc n) n []
itoa (negsuc n) = b'-' ∷ digits (suc (suc n)) (suc n) []

-- The range of an int64.
abbrev pub IsInt64 : ℤ → Type 0
IsInt64 (pos n) = n < 2 ^ 63
IsInt64 (negsuc n) = n < 2 ^ 63

length-digits-le :
    (rounds n : ℕ) (out : List ℕ) → length (digits rounds n out) ≤ rounds + length out
unfolding digits
length-digits-le zero n out = omega arith
length-digits-le (suc rounds) n out =
    ground (arith, length-digits-le rounds (n / 10) ((b'0' + n % 10) ∷ out))

pub length-itoa-lt : (z : ℤ) → IsInt64 z → length (itoa z) < 2 ^ 64
unfolding itoa
length-itoa-lt (pos n) h = omega (arith, length-digits-le (suc n) n [])
length-itoa-lt (negsuc n) h = omega (arith, length-digits-le (suc (suc n)) (suc n) [])

-- strconv.Atoi: its errors of syntax and of range, and its number.
pub data AtoiError : Type 0 where
  syntax out_of_range : AtoiError

unfoldable pub scan_digits : ℕ → List ℕ → Option ℕ
scan_digits acc [] = some acc
scan_digits acc (c ∷ s) =
    let more = scan_digits (10 * acc + (c - b'0')) s in
    if leb b'0' c && leb c b'9' then more else none

-- The digits of a number; there is at least one.
unfoldable pub scan_number : List ℕ → Option ℕ
unfolding scan_digits
scan_number [] = none
scan_number (c ∷ s) = scan_digits 0 (c ∷ s)

pub data Parsed : Type 0 where
  parsed : ℤ → Parsed
  unparsed : AtoiError → Parsed

abbrev negated : Option ℕ → Parsed
negated none = unparsed syntax
negated (some zero) = parsed (pos 0)
negated (some (suc n)) = if ltb n (2 ^ 63) then parsed (negsuc n) else unparsed out_of_range

abbrev as_given : Option ℕ → Parsed
as_given none = unparsed syntax
as_given (some n) = if ltb n (2 ^ 63) then parsed (pos n) else unparsed out_of_range

unfoldable pub atoi : List ℕ → Parsed
unfolding scan_number
atoi [] = unparsed syntax
atoi (c ∷ s) =
    if c == b'-'
    then negated (scan_number s)
    else if c == b'+'
    then as_given (scan_number s)
    else as_given (scan_number (c ∷ s))

scan_digit :
    (acc d : ℕ) (s : List ℕ)
    → d < 10
    → scan_digits acc ((b'0' + d) ∷ s) ≡ scan_digits (10 * acc + d) s
unfolding scan_digits
scan_digit acc d s h =
    let same : 10 * acc + (b'0' + d - b'0') ≡ 10 * acc + d = omega arith in
    let fits : (leb b'0' (b'0' + d) && leb (b'0' + d) b'9') ≡ true = ground arith in
    rw fits (ap (λ k. scan_digits k s) same)

-- Digits written are digits read.
scan_digits-digits :
    (rounds n : ℕ) (out : List ℕ)
    → n < rounds
    → scan_digits 0 (digits rounds n out) ≡ scan_digits n out
unfolding digits
scan_digits-digits zero n out h = absurd (omega arith)
scan_digits-digits (suc rounds) n out h = elim (Bool-cases (ltb n 10)) [
  | inl small ↦
      rw small (scan_digit 0 n out (ground arith) ∙ ap (λ k. scan_digits k out) (omega arith))
  | inr large ↦ rw large (
      scan_digits-digits rounds (n / 10) ((b'0' + n % 10) ∷ out) (ground arith)
      ∙ scan_digit (n / 10) (n % 10) out (omega arith)
      ∙ ap (λ k. scan_digits k out) (omega arith))
]

-- Where digits stand, the first of them is one.
digits-cons :
    (rounds n : ℕ) (out : List ℕ)
    → n < rounds
    → (d : ℕ) × (s : List ℕ) × (digits rounds n out ≡ (b'0' + d) ∷ s) × (d < 10)
unfolding digits
digits-cons zero n out h = absurd (omega arith)
digits-cons (suc rounds) n out h = elim (Bool-cases (ltb n 10)) [
  | inl small ↦ (n, out, rw small refl, ground arith)
  | inr large ↦
      let (d, s, is, lt) = digits-cons rounds (n / 10) ((b'0' + n % 10) ∷ out) (ground arith) in
      (d, s, rw large is, lt)
]

scan_number-digits : (n : ℕ) → scan_number (digits (suc n) n []) ≡ some n
unfolding scan_number
scan_number-digits n =
    let (d, s, is, lt) = digits-cons (suc n) n [] (omega arith) in
    rw is (ap (scan_digits 0) (sym is) ∙ scan_digits-digits (suc n) n [] (omega arith))

itoa_pos : (n : ℕ) → itoa (pos n) ≡ digits (suc n) n []
unfolding itoa
itoa_pos n = refl

itoa_negsuc : (n : ℕ) → itoa (negsuc n) ≡ b'-' ∷ digits (suc (suc n)) (suc n) []
unfolding itoa
itoa_negsuc n = refl

atoi_unsigned :
    (d : ℕ) (s : List ℕ) → d < 10 → atoi ((b'0' + d) ∷ s) ≡ as_given (scan_number ((b'0' + d) ∷ s))
unfolding atoi
atoi_unsigned d s h = ground arith

atoi_minus : (s : List ℕ) → atoi (b'-' ∷ s) ≡ negated (scan_number s)
unfolding atoi
atoi_minus s = refl

-- Atoi reads back what Itoa writes of an int64.
pub atoi-itoa : (z : ℤ) → IsInt64 z → atoi (itoa z) ≡ parsed z
atoi-itoa (pos n) h =
    let (d, s, is, lt) = digits-cons (suc n) n [] (omega arith) in
    ap atoi (itoa_pos n ∙ is)
    ∙ atoi_unsigned d s lt
    ∙ ap as_given (ap scan_number (sym is) ∙ scan_number-digits n)
    ∙ ground arith
atoi-itoa (negsuc n) h =
    ap atoi (itoa_negsuc n)
    ∙ atoi_minus (digits (suc (suc n)) (suc n) [])
    ∙ ap negated (scan_number-digits (suc n))
    ∙ ground arith
