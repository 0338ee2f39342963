-- ===== src/Anydb/Stores.antt =====
-- StoreDBNested and FetchDB on an open database: what a fetch reads behind a store.
use mostly.Common.{
  ℕ, ◌≡◌, ◌≢◌, ap, sym, ◌∙◌, ◌⊎◌, inl, inr, List, [], Bool, true, false, Option, none, some,
  Option-cases, arith,
}
use mostly.Ncode.Json.{
  Codec, to_json, decode_json, zero_length, decode_json-to_json, decode_json-to_json_refused,
}
use mostly.Anydb.Interface.{Bolt, DbError, decoding, no_key}
use mostly.Anydb.{
  Fetched, returned, panicked, decoded, fetch_tx, fetch, store_nested_tx, store_nested,
}
use mostly.Anydb.Laws.{
  locate, store_nested_tx-Put, fetch_tx-put, fetch_tx_debug, fetch_tx-store_nested_tx,
}

module _ (bolt : Bolt) where
  open bolt use {Db, Tx, Bucket, snapshot, get, put, view, update}

  -- An Update that reports no error has committed what its function did, which reported none.
  pub update_committed :
      (db : Db) (f : Tx → Tx × Option DbError)
      → (update db f).1 ≡ none
      → ((f (snapshot db)).1 ≡ none) × (snapshot (update db f).0 ≡ (f (snapshot db)).0)
  update_committed db f h = elim (Option-cases (f (snapshot db)).1) [
    | inr (e, is) ↦ let (er, sn) = bolt.update_error db f e is in absurd (ground arith)
    | inl is ↦ elim (bolt.update_commit db f is) [
      | inl (er, sn) ↦ (is, sn)
      | inr (e, er, sn) ↦ absurd (ground arith)
    ]
  ]

  -- Whatever Update reports, what follows it sees is what stood there or what its function left.
  pub update_snapshot :
      (db : Db) (f : Tx → Tx × Option DbError)
      → (snapshot (update db f).0 ≡ snapshot db) ⊎ (snapshot (update db f).0 ≡ (f (snapshot db)).0)
  update_snapshot db f = elim (Option-cases (f (snapshot db)).1) [
    | inr (e, is) ↦ inl (bolt.update_error db f e is).1
    | inl is ↦ elim (bolt.update_commit db f is) [
      | inl (er, sn) ↦ inr sn
      | inr (e, er, sn) ↦ inl sn
    ]
  ]

module _ (bolt : Bolt) {T : Type 0} (codec : Codec T) where
  open bolt use {Db, Tx, Bucket, snapshot, get, put, view, update}

  fetch-store_nested_text :
      (debug : Bool) (db : Db) (name : List ℕ) (keys : List (List ℕ)) (v : T)
      → (store_nested bolt codec db name keys v).1 ≡ none
      → fetch bolt codec debug (store_nested bolt codec db name keys v).0 name keys
        ≡ decoded bolt codec (decode_json codec (to_json codec v))
  unfolding fetch store_nested
  fetch-store_nested_text debug db name keys v h =
      let f : Tx → Tx × Option DbError = λ tx. store_nested_tx bolt codec tx name keys v in
      let (ok, sn) = update_committed bolt db f h in
      bolt.view_lem (update db f).0 (λ tx. fetch_tx bolt codec debug tx name keys)
      ∙ ap (λ tx. fetch_tx bolt codec debug tx name keys) sn
      ∙ fetch_tx-store_nested_tx bolt codec debug (snapshot db) name keys v ok

  -- Where Marshal accepts the value and StoreDBNested reports no error, FetchDB at the same bucket and
  -- path returns the value with no error, with or without debug logging.
  pub fetch-store_nested :
      (debug : Bool) (db : Db) (name : List ℕ) (keys : List (List ℕ)) (v : T) (b : List ℕ)
      → codec.marshal v ≡ some b
      → (store_nested bolt codec db name keys v).1 ≡ none
      → fetch bolt codec debug (store_nested bolt codec db name keys v).0 name keys
        ≡ returned v none
  fetch-store_nested debug db name keys v b m h =
      fetch-store_nested_text debug db name keys v h
      ∙ ap (decoded bolt codec) (decode_json-to_json codec v b m)

  -- Where Marshal refuses the value and StoreDBNested still reports no error, FetchDB at the same
  -- bucket and path returns the zero value and the error of an empty text: what stood there is lost.
  pub fetch-store_nested_refused :
      (debug : Bool) (db : Db) (name : List ℕ) (keys : List (List ℕ)) (v : T)
      → codec.marshal v ≡ none
      → (store_nested bolt codec db name keys v).1 ≡ none
      → fetch bolt codec debug (store_nested bolt codec db name keys v).0 name keys
        ≡ returned codec.zero_value (some (decoding zero_length))
  fetch-store_nested_refused debug db name keys v m h =
      fetch-store_nested_text debug db name keys v h
      ∙ ap (decoded bolt codec) (decode_json-to_json_refused codec v m)

  fetch_tx-store_nested_tx_other :
      (debug : Bool) (tx : Tx) (name other : List ℕ) (keys others : List (List ℕ)) (v : T)
      → locate bolt codec tx name keys ≢ locate bolt codec tx other others
      → fetch_tx bolt codec debug (store_nested_tx bolt codec tx name keys v).0 other others
        ≡ fetch_tx bolt codec debug tx other others
  fetch_tx-store_nested_tx_other debug tx name other keys others v ne =
      elim (store_nested_tx-Put bolt codec tx name keys v) [
        | inl same ↦ ap (λ t. fetch_tx bolt codec debug t other others) same
        | inr (b, k, at, is) ↦
            ap (λ t. fetch_tx bolt codec debug t other others) is
            ∙ fetch_tx-put bolt codec debug tx b k (to_json codec v) other others
                (λ h. ne (at ∙ sym h))
      ]

  -- StoreDBNested, whatever it reports, leaves what FetchDB returns at a path that does not lead to the
  -- same key of the same bucket.
  pub fetch-store_nested_other :
      (debug : Bool) (db : Db) (name other : List ℕ) (keys others : List (List ℕ)) (v : T)
      → locate bolt codec (snapshot db) name keys ≢ locate bolt codec (snapshot db) other others
      → fetch bolt codec debug (store_nested bolt codec db name keys v).0 other others
        ≡ fetch bolt codec debug db other others
  unfolding fetch store_nested
  fetch-store_nested_other debug db name other keys others v ne =
      let f : Tx → Tx × Option DbError = λ tx. store_nested_tx bolt codec tx name keys v in
      let look : Tx → Fetched T = λ tx. fetch_tx bolt codec debug tx other others in
      let same : look (snapshot (update db f).0) ≡ look (snapshot db) =
        elim (update_snapshot bolt db f) [
          | inl sn ↦ ap look sn
          | inr sn ↦
              ap look sn
              ∙ fetch_tx-store_nested_tx_other debug (snapshot db) name other keys others v ne
        ] in
      bolt.view_lem (update db f).0 look ∙ same ∙ sym (bolt.view_lem db look)

  -- FetchDB with debug logging returns what it returns without, except for an empty path into a bucket
  -- that is there: that panics with debug logging and returns the error of a missing key without.
  pub fetch_debug :
      (db : Db) (name : List ℕ) (keys : List (List ℕ))
      → ((keys ≢ []) × (fetch bolt codec true db name keys ≡ fetch bolt codec false db name keys))
        ⊎ ((keys ≡ [])
            × ((bolt.bucket (snapshot db) name ≡ none)
                ⊎ ((fetch bolt codec true db name keys ≡ panicked)
                    × (fetch bolt codec false db name keys
                        ≡ returned codec.zero_value (some no_key)))))
  unfolding fetch
  fetch_debug db name keys =
      rw
        (
          bolt.view_lem db (λ tx. fetch_tx bolt codec true tx name keys),
          bolt.view_lem db (λ tx. fetch_tx bolt codec false tx name keys),
        )
        (fetch_tx_debug bolt codec (snapshot db) name keys)
