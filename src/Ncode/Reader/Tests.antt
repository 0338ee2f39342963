-- ===== src/Ncode/Reader/Tests.antt =====
-- DecodeJsonReader at Booleans, which are written as one byte.
use mostly.Common.{
  ℕ, ◌≡◌, ◌≢◌, ◌++◌, refl, List, [], ◌∷◌, Bool, true, false, Option, none, some, arith, ◌==◌,
  if◌then◌else◌,
}
use mostly.Ncode.Json.{Codec}
use mostly.Ncode.Reader.{Decoding, decode_json_reader}

abbrev digit : Bool → ℕ
digit true = b'1'
digit false = b'0'

abbrev read_one : List ℕ → Bool × Option ℕ
read_one [] = (false, some 1)
read_one (c ∷ s) =
    if c == b'1' then (true, none) else if c == b'0' then (false, none) else (false, some 2)

abbrev read_all : List ℕ → Bool × Option ℕ
read_all [] = (false, some 1)
read_all (c ∷ []) = read_one (c ∷ [])
read_all (c ∷ d ∷ s) = (false, some 3)

digit_ne : (v : Bool) (b : List ℕ) → some (digit v ∷ []) ≡ some b → b ≢ []
digit_ne v b h e = ground arith

read_all-digit : (v : Bool) (b : List ℕ) → some (digit v ∷ []) ≡ some b → read_all b ≡ (v, none)
read_all-digit v b h = ground arith

read_one-digit :
    (v : Bool) (b rest : List ℕ) → some (digit v ∷ []) ≡ some b → read_one (b ++ rest) ≡ (v, none)
read_one-digit v b rest h = ground arith

read_only : (v : Bool) (b : List ℕ) → some (digit v ∷ []) ≡ some b → read_one b ≡ (v, none)
read_only v b h = ground arith

read_all_second :
    (v : Bool) (b b2 : List ℕ)
    → some (digit v ∷ []) ≡ some b
    → (n : ℕ) × ((read_all (b ++ b'\n' ∷ b2)).1 ≡ some n)
read_all_second v b b2 h = (3, ground arith)

abbrev booleans : Codec Bool
booleans = record {
  zero_value = false;
  marshal = λ v. some (digit v ∷ []);
  unmarshal = read_all;
  marshal_ne = digit_ne;
  unmarshal-marshal = read_all-digit;
}

abbrev json : Decoding Bool
json = record {
  codec = booleans;
  decode = λ rdr. read_one rdr.content;
  decode_first = λ v b rest h. read_one-digit v b (b'\n' ∷ rest) h;
  decode_only = λ v b h. read_only v b h;
  unmarshal_second = λ v w b b2 h h2. read_all_second v b b2 h;
}

-- With the variable read before the call the value is lost.
read_early :
    decode_json_reader json true false (record { content = b'1' ∷ []; read_error = none })
    ≡ (false, none)
unfolding decode_json_reader
read_early = refl
