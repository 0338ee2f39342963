-- ===== src/Ncode/Encoding/Laws.antt =====
-- The round trips of ncode/encoding.go.
use mostly.Common.{
  drop, ℕ, ◌^◌, ◌<◌, ◌≡◌, ◌↔◌, refl, List, [], ◌∷◌, ◌++◌, none, some, length, arith, ap,
}
use mostly.Ncode.Encoding.{put_uint64, uint64, n2b, b2n}

abbrev pub AllBytes : List ℕ → Type 0
AllBytes [] = Unit {0}
AllBytes (b ∷ bs) = (b < 256) × AllBytes bs

-- A number below 2 ^ 64 is read back from its eight bytes, whatever follows them, and each of the
-- bytes is below 256.
pub b2n-n2b :
    (n : ℕ) (rest : List ℕ)
    → n < 2 ^ 64
    → (b2n (n2b n ++ rest) ≡ some n) × AllBytes (n2b n) × (length (n2b n) ≡ 8)
unfolding n2b b2n
b2n-n2b n rest h = (ap some (omega arith), omega arith, refl)

-- B2N panics on fewer than eight bytes.
pub b2n_short : (b : List ℕ) → (b2n b ≡ none) ↔ (length b < 8)
unfolding b2n
b2n_short (b0 ∷ b1 ∷ b2 ∷ b3 ∷ b4 ∷ b5 ∷ b6 ∷ b7 ∷ rest) = ground arith
b2n_short _ = ground arith

-- Eight bytes are the encoding of the number that they are read as, and that number is below 2 ^ 64.
pub n2b-b2n :
    (b : List ℕ)
    → length b ≡ 8
    → AllBytes b
    → (n : ℕ) × (b2n b ≡ some n) × (n < 2 ^ 64) × (n2b n ≡ b)
unfolding n2b b2n
n2b-b2n (b0 ∷ b1 ∷ b2 ∷ b3 ∷ b4 ∷ b5 ∷ b6 ∷ b7 ∷ []) h a = (_, refl, omega arith, ground arith)
n2b-b2n _ h a = ground arith

pub uint64-put_uint64 :
    (n : ℕ) (rest : List ℕ)
    → n < 2 ^ 64
    → (uint64 (put_uint64 n ++ rest) ≡ some n) × (drop 8 (put_uint64 n ++ rest) ≡ rest)
unfolding uint64 put_uint64
uint64-put_uint64 n rest h = (ap some (omega arith), refl)
