-- ===== src/Anydb/Tests.antt =====
-- The calls of anydb on a database in memory, and the theorems at concrete keys.
use mostly.Common.{
  ℕ, zero, suc, ◌≡◌, ◌≢◌, refl, inr, List, [], ◌∷◌, true, Option, none, some, arith,
}
use mostly.Ncode.Json.{Codec, to_json, decode_json, zero_length}
use mostly.Anydb.Interface.{DbError, decoding, modifier_error}
use mostly.Anydb.{
  returned, walk, fetch_keys, fetch_tx, fetch, store_nested_keys, store_nested_tx, store_nested,
  update_nested,
}
use mostly.Anydb.Memory.{Contents, memory, write_key, same_key, commit}
use mostly.Anydb.Updates.{update_nested_error}

abbrev to_text : ℕ → Option (List ℕ)
to_text zero = none
to_text (suc n) = some (suc n ∷ [])

abbrev from_text : List ℕ → ℕ × Option ℕ
from_text [] = (0, some 1)
from_text (c ∷ b) = (c, none)

pub to_text_ne : (v : ℕ) (b : List ℕ) → to_text v ≡ some b → b ≢ []
to_text_ne zero b h = absurd (ground arith)
to_text_ne (suc n) b h = ground arith

pub from_text-to_text : (v : ℕ) (b : List ℕ) → to_text v ≡ some b → from_text b ≡ (v, none)
from_text-to_text zero b h = absurd (ground arith)
from_text-to_text (suc n) [] h = absurd (ground arith)
from_text-to_text (suc n) (c ∷ b) h = ground arith

-- Numbers, of which zero cannot be marshalled.
abbrev pub numbers : Codec ℕ
numbers = record {
  zero_value = 0;
  marshal = to_text;
  unmarshal = from_text;
  marshal_ne = to_text_ne;
  unmarshal-marshal = from_text-to_text;
}

abbrev blank : Contents
blank b k = []

abbrev pub key_a : List (List ℕ)
key_a = (1 ∷ []) ∷ []

abbrev pub key_b : List (List ℕ)
key_b = (1 ∷ []) ∷ (2 ∷ []) ∷ []

abbrev pub seven : Contents
seven = (store_nested memory numbers blank [] key_b 7).0

fetch_back : fetch memory numbers true seven [] key_b ≡ returned 7 none
unfolding fetch fetch_tx fetch_keys walk store_nested store_nested_tx store_nested_keys write_key
    commit same_key to_json decode_json
fetch_back = refl

fetch_elsewhere :
    fetch memory numbers true seven [] key_a ≡ returned 0 (some (decoding zero_length))
unfolding fetch fetch_tx fetch_keys walk store_nested store_nested_tx store_nested_keys write_key
    commit same_key to_json decode_json
fetch_elsewhere = refl

abbrev pub add_one : ℕ → ℕ × Option DbError
add_one n = (suc n, none)

abbrev pub refuse : ℕ → ℕ × Option DbError
refuse n = (n, some (modifier_error 3))

update_nested_error_example :
    ((update_nested memory numbers true seven [] key_b refuse).1 ≡ some (modifier_error 3))
    × ((update_nested memory numbers true seven [] key_b refuse).0 ≡ seven)
unfolding fetch fetch_tx fetch_keys walk store_nested store_nested_tx store_nested_keys write_key
    commit same_key to_json decode_json
update_nested_error_example =
    update_nested_error memory numbers true seven [] key_b refuse 7 7 (modifier_error 3)
      (inr (refl, refl))
