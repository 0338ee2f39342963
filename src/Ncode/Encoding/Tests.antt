-- ===== src/Ncode/Encoding/Tests.antt =====
-- Runs of the encoding, and the theorems at concrete numbers.
use mostly.Common.{ℕ, ◌≡◌, refl, List, [], ◌∷◌, ◌++◌, some, length, arith}
use mostly.Ncode.Encoding.{n2b, b2n}
use mostly.Ncode.Encoding.Laws.{AllBytes, b2n-n2b}

little_endian : n2b 258 ≡ 2 ∷ 1 ∷ 0 ∷ 0 ∷ 0 ∷ 0 ∷ 0 ∷ 0 ∷ []
unfolding n2b
little_endian = refl

b2n-n2b_example :
    (b2n (n2b 65535 ++ 1 ∷ []) ≡ some 65535) × AllBytes (n2b 65535) × (length (n2b 65535) ≡ 8)
b2n-n2b_example = b2n-n2b 65535 (1 ∷ []) (omega arith)

abbrev eight : List ℕ
eight = 255 ∷ 0 ∷ 0 ∷ 0 ∷ 0 ∷ 0 ∷ 0 ∷ 128 ∷ []
