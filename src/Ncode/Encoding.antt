-- ===== src/Ncode/Encoding.antt =====
-- ncode/encoding.go: N2B and B2N, over the little-endian byte order of encoding/binary.
-- A byte is a number below 256, and a uint64 a number below 2 ^ 64.
pub mod Laws
mod Tests
use mostly.Common.{
  ℕ, ◌+◌, ◌*◌, ◌/◌, ◌%◌, ◌^◌, List, [], ◌∷◌, Option, none, some, length, ltb, if◌then◌else◌,
}

-- `byte(v >> s)`.
abbrev pub byte_at : ℕ → ℕ → ℕ
byte_at v s = v / 2 ^ s % 256

-- The eight stores of LittleEndian.PutUint64 into a buffer of eight bytes.
unfoldable pub put_uint64 : ℕ → List ℕ
put_uint64 v =
    byte_at v 0
    ∷ byte_at v 8
    ∷ byte_at v 16
    ∷ byte_at v 24
    ∷ byte_at v 32
    ∷ byte_at v 40
    ∷ byte_at v 48
    ∷ byte_at v 56
    ∷ []

-- LittleEndian.Uint64: it reads `b[7]` first, so fewer than eight bytes panic (`none`). The bytes
-- are joined by `|` at shifts that do not overlap, which is a sum.
unfoldable pub uint64 : List ℕ → Option ℕ
uint64 (b0 ∷ b1 ∷ b2 ∷ b3 ∷ b4 ∷ b5 ∷ b6 ∷ b7 ∷ rest) = some (
    b0
    + b1 * 2 ^ 8
    + b2 * 2 ^ 16
    + b3 * 2 ^ 24
    + b4 * 2 ^ 32
    + b5 * 2 ^ 40
    + b6 * 2 ^ 48
    + b7 * 2 ^ 56)
uint64 _ = none

-- The argument is the number after its conversion to uint64.
unfoldable pub n2b : ℕ → List ℕ
unfolding put_uint64
n2b n = put_uint64 n

unfoldable pub b2n : List ℕ → Option ℕ
unfolding uint64
b2n b = uint64 b
