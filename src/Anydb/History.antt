-- ===== src/Anydb/History.antt =====
-- Sequences of the calls of anydb on one open database: what a fetch reads behind all of them.
use mostly.Common.{
  ℕ, ◌≡◌, ◌≢◌, ◌⊎◌, refl, ap, sym, ◌∙◌, inl, inr, List, [], ◌∷◌, Bool, Option, none, some,
  Option-cases, arith,
}
use mostly.Ncode.Json.{Codec, to_json, decode_json, decode_json-to_json}
use mostly.Anydb.Interface.{Bolt, DbError}
use mostly.Anydb.{returned, decoded, fetch_tx, fetch, store_nested_tx, update_tx_nested}
use mostly.Anydb.Laws.{locate-put, store_nested_tx-locate, fetch_tx-locate, put-key_ne}
use mostly.Anydb.Stores.{update_committed, update_snapshot}
use mostly.Anydb.Updates.{fetch_tx-fetch}
use mostly.Anydb.Calls.{
  Call, stores, stores_nested, updates, updates_nested, path, run_call, SetsTo, place, call_tx,
  run_call-update, call_tx-Put,
}

module _ (bolt : Bolt) {T : Type 0} (codec : Codec T) (debug : Bool) where
  open bolt use {Db, Tx, Bucket, snapshot, get, put, view, update}

  -- Calls one after another, each of which reports an error or leads elsewhere than the path.
  pub data Keeps (at : List ℕ × List (List ℕ)) (db : Db) : Db → Type 0 where
    no_calls : Keeps at db db
    then_call :
        {m : Db} (c : Call T)
        → Keeps at db m
        → ((e : DbError) × ((run_call bolt codec debug m c).1 ≡ some e))
          ⊎ (place bolt codec debug (snapshot m) (path c) ≢ place bolt codec debug (snapshot m) at)
        → Keeps at db (run_call bolt codec debug m c).0

  -- Where a path leads, and the text that stands there.
  abbrev Holds : List ℕ × List (List ℕ) → List ℕ → Tx → Type 0
  Holds at text tx =
      (b : Bucket) × (k : List ℕ) × (place bolt codec debug tx at ≡ some (b, k))
      × (k ≢ [])
      × (get tx b k ≡ text)

  Holds-put :
      (at : List ℕ × List (List ℕ)) (text : List ℕ) (tx : Tx) (b : Bucket) (k w : List ℕ)
      → place bolt codec debug tx at ≢ some (b, k)
      → Holds at text tx
      → Holds at text (put tx b k w).0
  Holds-put at text tx b k w ne (b2, j, leads, some_key, is) = (
    b2,
    j,
    locate-put bolt codec tx b k w at.0 at.1 ∙ leads,
    some_key,
    bolt.get-put_other tx b b2 k j w (λ h. ne (leads ∙ ap some (sym h))) ∙ is,
  )

  update_failed :
      (db : Db) (f : Tx → Tx × Option DbError) (e : DbError)
      → (update db f).1 ≡ some e
      → snapshot (update db f).0 ≡ snapshot db
  update_failed db f e h = elim (Option-cases (f (snapshot db)).1) [
    | inr (d, is) ↦ (bolt.update_error db f d is).1
    | inl is ↦ elim (bolt.update_commit db f is) [
      | inl (fine, sn) ↦ absurd (ground arith)
      | inr (d, er, sn) ↦ sn
    ]
  ]

  Holds-call_tx :
      (at : List ℕ × List (List ℕ)) (text : List ℕ) (tx : Tx) (c : Call T)
      → place bolt codec debug tx (path c) ≢ place bolt codec debug tx at
      → Holds at text tx
      → Holds at text (call_tx bolt codec debug c tx).0
  Holds-call_tx at text tx c ne holds = elim (call_tx-Put bolt codec debug c tx) [
    | inl same ↦ rw same holds
    | inr (b, k, w, leads, is) ↦ rw is (Holds-put at text tx b k w (λ h. ne (leads ∙ sym h)) holds)
  ]

  Holds-run_call :
      (at : List ℕ × List (List ℕ)) (text : List ℕ) (m : Db) (c : Call T)
      → ((e : DbError) × ((run_call bolt codec debug m c).1 ≡ some e))
        ⊎ (place bolt codec debug (snapshot m) (path c) ≢ place bolt codec debug (snapshot m) at)
      → Holds at text (snapshot m)
      → Holds at text (snapshot (run_call bolt codec debug m c).0)
  Holds-run_call at text m c (inl (e, failed)) holds =
      rw
        (
          run_call-update bolt codec debug m c,
          update_failed m (call_tx bolt codec debug c) e
              (ap (λ r. r.1) (sym (run_call-update bolt codec debug m c)) ∙ failed),
        )
        holds
  Holds-run_call at text m c (inr ne) holds =
      elim (update_snapshot bolt m (call_tx bolt codec debug c)) [
        | inl same ↦ rw (run_call-update bolt codec debug m c, same) holds
        | inr is ↦
            rw (run_call-update bolt codec debug m c, is)
              (Holds-call_tx at text (snapshot m) c ne holds)
      ]

  Keeps-Holds :
      {at : List ℕ × List (List ℕ)} {db after : Db} (text : List ℕ)
      → Keeps at db after
      → Holds at text (snapshot db)
      → Holds at text (snapshot after)
  Keeps-Holds text no_calls holds = holds
  Keeps-Holds {at} text (then_call {m = m} c before allowed) holds =
      Holds-run_call at text m c allowed (Keeps-Holds text before holds)

  SetsTo-call_tx :
      (db : Db) (v : T) (c : Call T)
      → SetsTo bolt codec debug db v c
      → call_tx bolt codec debug c (snapshot db)
        ≡ store_nested_tx bolt codec (snapshot db) (path c).0 (path c).1 v
  unfolding update_tx_nested
  SetsTo-call_tx db v (stores name key w) is =
      ap (store_nested_tx bolt codec (snapshot db) name (key ∷ [])) is
  SetsTo-call_tx db v (stores_nested name keys w) is =
      ap (store_nested_tx bolt codec (snapshot db) name keys) is
  SetsTo-call_tx db v (updates name key modifier) (x, read, makes) =
      rw (fetch_tx-fetch bolt codec debug db name (key ∷ []), read, makes) refl
  SetsTo-call_tx db v (updates_nested name keys modifier) (x, read, makes) =
      rw (fetch_tx-fetch bolt codec debug db name keys, read, makes) refl

  SetsTo-Holds :
      (at : List ℕ × List (List ℕ)) (db : Db) (v : T) (c : Call T)
      → SetsTo bolt codec debug db v c
      → (run_call bolt codec debug db c).1 ≡ none
      → place bolt codec debug (snapshot db) at ≡ place bolt codec debug (snapshot db) (path c)
      → Holds at (to_json codec v) (snapshot (run_call bolt codec debug db c).0)
  SetsTo-Holds at db v c sets fine same =
      let text = to_json codec v in
      let (done, sn) =
        update_committed bolt db (call_tx bolt codec debug c)
          (ap (λ r. r.1) (sym (run_call-update bolt codec debug db c)) ∙ fine) in
      let is = SetsTo-call_tx db v c sets in
      let (b, k, leads, put_is) =
        store_nested_tx-locate bolt codec (snapshot db) (path c).0 (path c).1 v
          (ap (λ r. r.1) (sym is) ∙ done) in
      let ok = ap (λ r. r.1) (sym (is ∙ put_is)) ∙ done in
      rw (run_call-update bolt codec debug db c, sn, is, put_is)
        (
          b,
          k,
          locate-put bolt codec (snapshot db) b k text at.0 at.1 ∙ same ∙ leads,
          put-key_ne bolt codec (snapshot db) b k text ok,
          bolt.get-put_self (snapshot db) b k text ok,
        )

  -- A store or an update that leaves `v`, which Marshal accepts, reports no error. Further calls of
  -- stores and updates follow, each of which leads to another key or another bucket or reports an
  -- error. Then FetchDB returns `v` with no error, with or without debug logging, at every path that
  -- led where that call's path led.
  pub fetch-latest :
      (logs : Bool) (at : List ℕ × List (List ℕ)) (db after : Db) (v : T) (c : Call T) (b : List ℕ)
      → SetsTo bolt codec debug db v c
      → (run_call bolt codec debug db c).1 ≡ none
      → codec.marshal v ≡ some b
      → place bolt codec debug (snapshot db) at ≡ place bolt codec debug (snapshot db) (path c)
      → Keeps at (run_call bolt codec debug db c).0 after
      → fetch bolt codec logs after at.0 at.1 ≡ returned v none
  unfolding fetch
  fetch-latest logs at db after v c b sets fine accepts same later =
      let (bu, k, leads, some_key, is) =
        Keeps-Holds (to_json codec v) later (SetsTo-Holds at db v c sets fine same) in
      bolt.view_lem after (λ tx. fetch_tx bolt codec logs tx at.0 at.1)
      ∙ fetch_tx-locate bolt codec logs (snapshot after) at.0 at.1 bu k leads some_key
      ∙ ap (λ w. decoded bolt codec (decode_json codec w)) is
      ∙ ap (decoded bolt codec) (decode_json-to_json codec v b accepts)
