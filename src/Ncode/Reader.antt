-- ===== src/Ncode/Reader.antt =====
-- ncode/njson.go and ncode/http.go: DecodeJsonReader with and without DebugJsonRequests, and
-- DecodeRequestBody. What the debug mode logs is left out.
mod Tests
use mostly.Common.{
  ℕ, ◌≡◌, refl, sym, ap, ◌∙◌, List, [], ◌∷◌, ◌++◌, Bool, true, false, Option, none, some,
  if◌then◌else◌,
}
use mostly.Ncode.Json.{Codec}

-- What a reader yields until it ends, and the number of the error that it ends with (`none` is EOF).
pub record Source : Type 0 where
  pub content : List ℕ
  pub read_error : Option ℕ

-- A json.Decoder on a source, and Unmarshal. Decode reads the first value and leaves what stands behind
-- it on further lines; Unmarshal takes no second value.
pub record Decoding (T : Type 0) : Type 0 where
  pub codec : Codec T
  pub decode : Source → T × Option ℕ
  pub decode_first :
      (v : T) (b rest : List ℕ)
      → codec.marshal v ≡ some b
      → decode (record { content = b ++ b'\n' ∷ rest; read_error = none }) ≡ (v, none)
  pub decode_only :
      (v : T) (b : List ℕ)
      → codec.marshal v ≡ some b
      → decode (record { content = b; read_error = none }) ≡ (v, none)
  pub unmarshal_second :
      (v w : T) (b b2 : List ℕ)
      → codec.marshal v ≡ some b
      → codec.marshal w ≡ some b2
      → (n : ℕ) × ((codec.unmarshal (b ++ b'\n' ∷ b2)).1 ≡ some n)

module _ {T : Type 0} (json : Decoding T) where
  -- debugDecodeJsonReader. In `return v, json.Unmarshal(buf, &v)` the Go specification leaves open
  -- whether v is read before the call or behind it; `late` says that it is behind.
  unfoldable pub debug_decode_json_reader : Bool → Source → T × Option ℕ
  debug_decode_json_reader late rdr = elim rdr.read_error [
    | some e ↦ (json.codec.zero_value, some e)
    | none ↦
        let (v, err) = json.codec.unmarshal rdr.content in
        (if late then v else json.codec.zero_value, err)
  ]

  -- `debug` is DebugJsonRequests.
  unfoldable pub decode_json_reader : Bool → Bool → Source → T × Option ℕ
  unfolding debug_decode_json_reader
  decode_json_reader debug late rdr =
      if debug then debug_decode_json_reader late rdr else json.decode rdr

  -- DecodeRequestBody, with whether the body is closed then.
  unfoldable pub decode_request_body : Bool → Bool → Source → (T × Option ℕ) × Bool
  unfolding decode_json_reader
  decode_request_body debug late body = (decode_json_reader debug late body, true)

  -- A source that holds one marshalled value is decoded as that value in both modes, as long as the
  -- variable is read behind the call. One that holds a second value on a further line is decoded
  -- as the first without DebugJsonRequests, and is an error with it.
  pub decode_json_reader_debug :
      (v w : T) (b b2 : List ℕ) (debug late : Bool)
      → json.codec.marshal v ≡ some b
      → json.codec.marshal w ≡ some b2
      → (decode_json_reader debug true (record { content = b; read_error = none }) ≡ (v, none))
        × (decode_json_reader false late (record { content = b ++ b'\n' ∷ b2; read_error = none })
            ≡ (v, none))
        × ((n : ℕ) × ((decode_json_reader true late
                (record { content = b ++ b'\n' ∷ b2; read_error = none })).1
              ≡ some n))
  unfolding decode_json_reader
  decode_json_reader_debug v w b b2 true late h h2 = (
    json.codec.unmarshal-marshal v b h,
    json.decode_first v b b2 h,
    json.unmarshal_second v w b b2 h h2,
  )
  decode_json_reader_debug v w b b2 false late h h2 =
      (json.decode_only v b h, json.decode_first v b b2 h, json.unmarshal_second v w b b2 h h2)
