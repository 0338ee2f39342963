-- ===== src/Anydb.antt =====
-- The package anydb (anydb/anydb.go), over bbolt and encoding/json as parameters. A key is the list of
-- its bytes. Debug logging is left out, but not what it does to an empty path.
pub mod Interface
pub mod Laws
pub mod Stores
pub mod Updates
pub mod Calls
pub mod History
mod Memory
mod Tests
mod HistoryTests
use mostly.Common.{ℕ, List, [], ◌∷◌, Bool, true, false, if◌then◌else◌, Option, none, some}
use mostly.Ncode.Json.{Codec, DecodeError, to_json, decode_json}
use Interface.{
  Bolt, DbError, bucket_not_found, no_key, empty_key, err_zero_length, bad_nested_lookup, decoding,
  panic,
}

-- A call panics, or it returns its value and its error.
pub data Fetched (T : Type 0) : Type 0 where
  panicked : Fetched T
  returned : T → Option DbError → Fetched T

module _ (bolt : Bolt) {T : Type 0} (codec : Codec T) where
  open bolt use {Db, Tx, Bucket, snapshot, bucket, sub_bucket, get, put, view, update}

  -- The bucket and the key at the end of a path, below a bucket; `none` where a bucket is missing.
  unfoldable pub walk : Tx → Bucket → List ℕ → List (List ℕ) → Option (Bucket × List ℕ)
  walk tx bu key [] = some (bu, key)
  walk tx bu key (next ∷ rest) = elim (sub_bucket tx bu key) [
    | none ↦ none
    | some child ↦ walk tx child next rest
  ]

  abbrev pub decoded : T × Option DecodeError → Fetched T
  decoded (v, none) = returned v none
  decoded (v, some e) = returned v (some (decoding e))

  abbrev pub fetched : Tx → Option (Bucket × List ℕ) → Fetched T
  fetched tx none = returned codec.zero_value (some bucket_not_found)
  fetched tx (some (b, k)) = decoded (decode_json codec (get tx b k))

  -- FetchDB_Tx behind the lookup of the first bucket; `debug` is ncode.DebugJsonRequests, which has
  -- `key[0]` printed.
  unfoldable pub fetch_keys : Bool → Tx → Bucket → List (List ℕ) → Fetched T
  unfolding walk
  fetch_keys debug tx bu [] = if debug then panicked else returned codec.zero_value (some no_key)
  fetch_keys debug tx bu ([] ∷ []) = returned codec.zero_value (some empty_key)
  fetch_keys debug tx bu (key ∷ rest) = fetched tx (walk tx bu key rest)

  unfoldable pub fetch_tx : Bool → Tx → List ℕ → List (List ℕ) → Fetched T
  unfolding fetch_keys
  fetch_tx debug tx name keys = elim (bucket tx name) [
    | none ↦ returned codec.zero_value (some bucket_not_found)
    | some bu ↦ fetch_keys debug tx bu keys
  ]

  unfoldable pub fetch : Bool → Db → List ℕ → List (List ℕ) → Fetched T
  fetch debug db name keys = view db (λ tx. fetch_tx debug tx name keys)

  unfoldable pub store_tx : Tx → List ℕ → List ℕ → T → Tx × Option DbError
  store_tx tx name key val = elim (bucket tx name) [
    | none ↦ (tx, some bucket_not_found)
    | some bu ↦ put tx bu key (to_json codec val)
  ]

  unfoldable pub store_nested_keys : Tx → Bucket → List (List ℕ) → T → Tx × Option DbError
  unfolding walk
  store_nested_keys tx bu [] val = (tx, some err_zero_length)
  store_nested_keys tx bu (key ∷ rest) val = elim (walk tx bu key rest) [
    | none ↦ (tx, some bad_nested_lookup)
    | some (b, k) ↦ put tx b k (to_json codec val)
  ]

  unfoldable pub store_nested_tx : Tx → List ℕ → List (List ℕ) → T → Tx × Option DbError
  unfolding store_nested_keys
  store_nested_tx tx name keys val = elim (bucket tx name) [
    | none ↦ (tx, some bucket_not_found)
    | some bu ↦ store_nested_keys tx bu keys val
  ]

  unfoldable pub store : Db → List ℕ → List ℕ → T → Db × Option DbError
  store db name key val = update db (λ tx. store_tx tx name key val)

  unfoldable pub store_nested : Db → List ℕ → List (List ℕ) → T → Db × Option DbError
  store_nested db name keys val = update db (λ tx. store_nested_tx tx name keys val)

  -- UpdateTx and UpdateTxNested behind the fetch: the modifier and the store.
  abbrev pub finished : Tx → (T → Tx × Option DbError) → T × Option DbError → Tx × Option DbError
  finished tx store (w, none) = store w
  finished tx store (w, some e) = (tx, some e)

  abbrev pub modified :
      (T → T × Option DbError) → Tx → (T → Tx × Option DbError) → Fetched T → Tx × Option DbError
  modified modifier tx store panicked = (tx, some panic)
  modified modifier tx store (returned v (some e)) = (tx, some e)
  modified modifier tx store (returned v none) = finished tx store (modifier v)

  unfoldable pub update_tx :
      Bool → Tx → List ℕ → List ℕ → (T → T × Option DbError) → Tx × Option DbError
  update_tx debug tx name key modifier =
      modified modifier tx (store_tx tx name key) (fetch_tx debug tx name (key ∷ []))

  unfoldable pub update_tx_nested :
      Bool → Tx → List ℕ → List (List ℕ) → (T → T × Option DbError) → Tx × Option DbError
  update_tx_nested debug tx name keys modifier =
      modified modifier tx (store_nested_tx tx name keys) (fetch_tx debug tx name keys)

  -- Update and UpdateNested; `update` of a Bolt is the Update of bbolt.
  unfoldable pub update_key :
      Bool → Db → List ℕ → List ℕ → (T → T × Option DbError) → Db × Option DbError
  update_key debug db name key modifier = update db (λ tx. update_tx debug tx name key modifier)

  unfoldable pub update_nested :
      Bool → Db → List ℕ → List (List ℕ) → (T → T × Option DbError) → Db × Option DbError
  update_nested debug db name keys modifier =
      update db (λ tx. update_tx_nested debug tx name keys modifier)
