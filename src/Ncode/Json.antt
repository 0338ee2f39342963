-- ===== src/Ncode/Json.antt =====
-- ncode/encoding.go: toJson and DecodeJson, over encoding/json as a parameter.
use mostly.Common.{ℕ, ◌≡◌, ◌≢◌, refl, List, [], ◌∷◌, Option, none, some}

-- encoding/json at a type: its zero value, Marshal (`none` is an error), and Unmarshal of a non-empty
-- text into a zero value, with the number of its error. What Marshal wrote is not empty, and
-- Unmarshal reads it back.
pub record Codec (T : Type 0) : Type 0 where
  pub zero_value : T
  pub marshal : T → Option (List ℕ)
  pub unmarshal : List ℕ → T × Option ℕ
  pub marshal_ne : (v : T) (b : List ℕ) → marshal v ≡ some b → b ≢ []
  pub unmarshal-marshal : (v : T) (b : List ℕ) → marshal v ≡ some b → unmarshal b ≡ (v, none)

pub data DecodeError : Type 0 where
  zero_length : DecodeError
  json_error : ℕ → DecodeError

module _ {T : Type 0} (codec : Codec T) where
  -- The error of Marshal is dropped, and its result is then nil.
  unfoldable pub to_json : T → List ℕ
  to_json a = elim (codec.marshal a) [ none ↦ [] | some b ↦ b ]

  unfoldable pub decode_json : List ℕ → T × Option DecodeError
  decode_json [] = (codec.zero_value, some zero_length)
  decode_json (c ∷ b) =
      let (v, err) = codec.unmarshal (c ∷ b) in
      (v, elim err [ none ↦ none | some n ↦ some (json_error n) ])

  -- A value that can be marshalled is read back.
  pub decode_json-to_json :
      (v : T) (b : List ℕ) → codec.marshal v ≡ some b → decode_json (to_json v) ≡ (v, none)
  unfolding to_json decode_json
  decode_json-to_json v [] h = absurd (codec.marshal_ne v [] h refl)
  decode_json-to_json v (c ∷ b) h = rw (h, to_json) (rw (codec.unmarshal-marshal v (c ∷ b) h))

  -- One that cannot is stored as nothing.
  pub decode_json-to_json_refused :
      (v : T)
      → codec.marshal v ≡ none
      → decode_json (to_json v) ≡ (codec.zero_value, some zero_length)
  unfolding to_json decode_json
  decode_json-to_json_refused v h = rw (h, to_json)
