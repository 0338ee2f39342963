-- ===== src/Anydb/Updates.antt =====
-- Update and UpdateNested on an open database: a fetch, the modifier and a store in one transaction.
use mostly.Common.{
  ℕ, ◌≡◌, refl, ap, sym, ◌⊎◌, inl, inr, List, [], ◌∷◌, Bool, Option, none, some, Option-cases,
}
use std.Path.{fun_ext}
use mostly.Ncode.Json.{Codec}
use mostly.Anydb.Interface.{Bolt, DbError}
use mostly.Anydb.{
  returned, fetch_tx, fetch, store_nested_tx, store_tx, store_nested_keys, walk, store,
  store_nested, update_tx, update_tx_nested, modified, update_key, update_nested,
}

module _ (bolt : Bolt) {T : Type 0} (codec : Codec T) where
  open bolt use {Db, Tx, Bucket, snapshot, put, view, update}

  pub fetch_tx-fetch :
      (debug : Bool) (db : Db) (name : List ℕ) (keys : List (List ℕ))
      → fetch_tx bolt codec debug (snapshot db) name keys ≡ fetch bolt codec debug db name keys
  unfolding fetch
  fetch_tx-fetch debug db name keys =
      sym (bolt.view_lem db (λ tx. fetch_tx bolt codec debug tx name keys))

  -- Where FetchDB at the path returns a value with no error and the modifier makes another of it, with
  -- no error, UpdateNested is StoreDBNested of that other value.
  pub update_nested-store_nested :
      (debug : Bool) (db : Db) (name : List ℕ) (keys : List (List ℕ))
      (modifier : T → T × Option DbError) (v w : T)
      → fetch bolt codec debug db name keys ≡ returned v none
      → modifier v ≡ (w, none)
      → update_nested bolt codec debug db name keys modifier
        ≡ store_nested bolt codec db name keys w
  unfolding update_nested store_nested update_tx_nested
  update_nested-store_nested debug db name keys modifier v w h m =
      bolt.update_same db (λ tx. update_tx_nested bolt codec debug tx name keys modifier)
        (λ tx. store_nested_tx bolt codec tx name keys w)
        (rw (fetch_tx-fetch debug db name keys, h, m) refl)

  -- Where FetchDB at the path reports an error, or the modifier reports one on the value that FetchDB
  -- returns, UpdateNested reports the same error and leaves the contents of the database.
  pub update_nested_error :
      (debug : Bool) (db : Db) (name : List ℕ) (keys : List (List ℕ))
      (modifier : T → T × Option DbError) (v w : T) (e : DbError)
      → (fetch bolt codec debug db name keys ≡ returned v (some e))
        ⊎ ((fetch bolt codec debug db name keys ≡ returned v none) × (modifier v ≡ (w, some e)))
      → ((update_nested bolt codec debug db name keys modifier).1 ≡ some e)
        × (snapshot (update_nested bolt codec debug db name keys modifier).0 ≡ snapshot db)
  unfolding update_nested update_tx_nested
  update_nested_error debug db name keys modifier v w e (inl h) =
      bolt.update_error db (λ tx. update_tx_nested bolt codec debug tx name keys modifier) e
        (rw (fetch_tx-fetch debug db name keys, h) refl)
  update_nested_error debug db name keys modifier v w e (inr (h, m)) =
      bolt.update_error db (λ tx. update_tx_nested bolt codec debug tx name keys modifier) e
        (rw (fetch_tx-fetch debug db name keys, h, m) refl)

  store_tx-store_nested_tx :
      (tx : Tx) (name key : List ℕ) (v : T)
      → store_tx bolt codec tx name key v ≡ store_nested_tx bolt codec tx name (key ∷ []) v
  unfolding store_tx store_nested_tx store_nested_keys
  store_tx-store_nested_tx tx name key v = elim (Option-cases (bolt.bucket tx name)) [
    | inl e ↦ rw (store_tx, store_nested_tx, e) refl
    | inr (bu, e) ↦ rw (store_tx, store_nested_tx, e, walk) refl
  ]

  -- The calls for one key are those for a path of one key.
  pub single_key :
      (debug : Bool) (db : Db) (name key : List ℕ) (modifier : T → T × Option DbError) (v : T)
      → (store bolt codec db name key v ≡ store_nested bolt codec db name (key ∷ []) v)
        × (update_key bolt codec debug db name key modifier
            ≡ update_nested bolt codec debug db name (key ∷ []) modifier)
  unfolding store store_nested update_key update_nested store_tx store_nested_tx store_nested_keys
      walk update_tx update_tx_nested
  single_key debug db name key modifier v = (
    bolt.update_same db (λ tx. store_tx bolt codec tx name key v)
        (λ tx. store_nested_tx bolt codec tx name (key ∷ []) v)
        (store_tx-store_nested_tx (snapshot db) name key v),
    bolt.update_same db (λ tx. update_tx bolt codec debug tx name key modifier)
        (λ tx. update_tx_nested bolt codec debug tx name (key ∷ []) modifier)
        (ap
          (λ s.
            modified bolt codec modifier (snapshot db) s
              (fetch_tx bolt codec debug (snapshot db) name (key ∷ [])))
          (fun_ext (store_tx-store_nested_tx (snapshot db) name key))),
  )
