-- ===== src/Anydb/Calls.antt =====
-- The calls of anydb on an open database as data, and what each does in its transaction.
use mostly.Common.{ℕ, ◌≡◌, ◌⊎◌, refl, ap, ◌∙◌, inl, inr, List, [], ◌∷◌, Bool, Option, none, some}
use mostly.Ncode.Json.{Codec, to_json}
use mostly.Anydb.Interface.{Bolt, DbError}
use mostly.Anydb.{
  Fetched, panicked, returned, fetch_tx, fetch, store_nested_tx, store, store_nested,
  update_tx_nested, modified, finished, update_key, update_nested,
}
use mostly.Anydb.Laws.{locate, store_nested_tx-Put}
use mostly.Anydb.Updates.{single_key}

-- StoreDB, StoreDBNested, Update and UpdateNested, with their arguments.
pub data Call (T : Type 0) : Type 0 where
  stores : List ℕ → List ℕ → T → Call T
  stores_nested : List ℕ → List (List ℕ) → T → Call T
  updates : List ℕ → List ℕ → (T → T × Option DbError) → Call T
  updates_nested : List ℕ → List (List ℕ) → (T → T × Option DbError) → Call T

-- The path of a call: its bucket and its keys.
abbrev pub path : {T : Type 0} → Call T → List ℕ × List (List ℕ)
path (stores name key v) = (name, key ∷ [])
path (stores_nested name keys v) = (name, keys)
path (updates name key modifier) = (name, key ∷ [])
path (updates_nested name keys modifier) = (name, keys)

module _ (bolt : Bolt) {T : Type 0} (codec : Codec T) (debug : Bool) where
  open bolt use {Db, Tx, Bucket, snapshot, get, put, view, update}

  abbrev pub run_call : Db → Call T → Db × Option DbError
  run_call db (stores name key v) = store bolt codec db name key v
  run_call db (stores_nested name keys v) = store_nested bolt codec db name keys v
  run_call db (updates name key modifier) = update_key bolt codec debug db name key modifier
  run_call db (updates_nested name keys modifier) =
      update_nested bolt codec debug db name keys modifier

  -- The call stores `v`, or it makes `v` of what FetchDB returns.
  abbrev pub SetsTo : Db → T → Call T → Type 0
  SetsTo db v (stores name key w) = w ≡ v
  SetsTo db v (stores_nested name keys w) = w ≡ v
  SetsTo db v (updates name key modifier) =
      (x : T) × (fetch bolt codec debug db name (key ∷ []) ≡ returned x none)
      × (modifier x ≡ (v, none))
  SetsTo db v (updates_nested name keys modifier) =
      (x : T) × (fetch bolt codec debug db name keys ≡ returned x none) × (modifier x ≡ (v, none))

  abbrev pub place : Tx → List ℕ × List (List ℕ) → Option (Bucket × List ℕ)
  place tx (name, keys) = locate bolt codec tx name keys

  -- What a call does in its transaction.
  abbrev pub call_tx : Call T → Tx → Tx × Option DbError
  call_tx (stores name key v) tx = store_nested_tx bolt codec tx name (key ∷ []) v
  call_tx (stores_nested name keys v) tx = store_nested_tx bolt codec tx name keys v
  call_tx (updates name key modifier) tx =
      update_tx_nested bolt codec debug tx name (key ∷ []) modifier
  call_tx (updates_nested name keys modifier) tx =
      update_tx_nested bolt codec debug tx name keys modifier

  pub run_call-update : (db : Db) (c : Call T) → run_call db c ≡ update db (call_tx c)
  unfolding store_nested update_nested
  run_call-update db (stores name key v) =
      (single_key bolt codec debug db name key (λ x. (x, none)) v).0
  run_call-update db (stores_nested name keys v) = refl
  run_call-update db (updates name key modifier) =
      (single_key bolt codec debug db name key modifier codec.zero_value).1
  run_call-update db (updates_nested name keys modifier) = refl

  modified_inv :
      (modifier : T → T × Option DbError) (tx : Tx) (st : T → Tx × Option DbError) (r : Fetched T)
      → ((modified bolt codec modifier tx st r).0 ≡ tx)
        ⊎ ((w : T) × (modified bolt codec modifier tx st r ≡ st w))
  modified_inv modifier tx st panicked = inl refl
  modified_inv modifier tx st (returned v (some e)) = inl refl
  modified_inv modifier tx st (returned v none) = ended (modifier v)
    where
      ended :
          (r : T × Option DbError)
          → ((finished bolt codec tx st r).0 ≡ tx)
            ⊎ ((w : T) × (finished bolt codec tx st r ≡ st w))
      ended (w, none) = inr (w, refl)
      ended (w, some e) = inl refl

  -- In a transaction, a call is a Put where its path leads, or it changes nothing.
  store_tx-Put :
      (name : List ℕ) (keys : List (List ℕ)) (v : T) (tx : Tx)
      → ((store_nested_tx bolt codec tx name keys v).0 ≡ tx)
        ⊎ ((b : Bucket) × (k : List ℕ) × (text : List ℕ) × (locate bolt codec tx name keys
              ≡ some (b, k))
            × ((store_nested_tx bolt codec tx name keys v).0 ≡ (put tx b k text).0))
  store_tx-Put name keys v tx = elim (store_nested_tx-Put bolt codec tx name keys v) [
    | inl same ↦ inl same
    | inr (b, k, at, is) ↦ inr (b, k, to_json codec v, at, is)
  ]

  update_tx-Put :
      (name : List ℕ) (keys : List (List ℕ)) (modifier : T → T × Option DbError) (tx : Tx)
      → ((update_tx_nested bolt codec debug tx name keys modifier).0 ≡ tx)
        ⊎ ((b : Bucket) × (k : List ℕ) × (text : List ℕ) × (locate bolt codec tx name keys
              ≡ some (b, k))
            × ((update_tx_nested bolt codec debug tx name keys modifier).0 ≡ (put tx b k text).0))
  unfolding update_tx_nested
  update_tx-Put name keys modifier tx =
      elim (modified_inv modifier tx (store_nested_tx bolt codec tx name keys)
        (fetch_tx bolt codec debug tx name keys)) [
          | inl same ↦ inl same
          | inr (w, is) ↦ elim (store_tx-Put name keys w tx) [
            | inl same ↦ inl (ap (λ r. r.0) is ∙ same)
            | inr (b, k, text, at, put_is) ↦ inr (b, k, text, at, ap (λ r. r.0) is ∙ put_is)
          ]
        ]

  pub call_tx-Put :
      (c : Call T) (tx : Tx)
      → ((call_tx c tx).0 ≡ tx)
        ⊎ ((b : Bucket) × (k : List ℕ) × (text : List ℕ) × (place tx (path c) ≡ some (b, k))
            × ((call_tx c tx).0 ≡ (put tx b k text).0))
  call_tx-Put (stores name key v) tx = store_tx-Put name (key ∷ []) v tx
  call_tx-Put (stores_nested name keys v) tx = store_tx-Put name keys v tx
  call_tx-Put (updates name key modifier) tx = update_tx-Put name (key ∷ []) modifier tx
  call_tx-Put (updates_nested name keys modifier) tx = update_tx-Put name keys modifier tx
