-- ===== src/Anydb/Laws.antt =====
-- What the stores and the updates of anydb leave for a later fetch.
use mostly.Common.{
  ℕ, ◌≡◌, ◌≢◌, ◌⊎◌, refl, ap, sym, ◌∙◌, inl, inr, List, [], ◌∷◌, Bool, true, false, Option, none,
  some, arith, Option-cases,
}
use mostly.Ncode.Json.{Codec, to_json, decode_json}
use mostly.Anydb.Interface.{Bolt, no_key}
use mostly.Anydb.{
  panicked, returned, walk, fetched, decoded, fetch_keys, fetch_tx, store_nested_keys,
  store_nested_tx,
}

module _ (bolt : Bolt) {T : Type 0} (codec : Codec T) where
  open bolt use {Db, Tx, Bucket, snapshot, bucket, sub_bucket, get, put}

  walk-put :
      (tx : Tx) (b : Bucket) (k v : List ℕ) (bu : Bucket) (key : List ℕ) (rest : List (List ℕ))
      → walk bolt codec (put tx b k v).0 bu key rest ≡ walk bolt codec tx bu key rest
  unfolding walk
  walk-put tx b k v bu key [] = refl
  walk-put tx b k v bu key (next ∷ rest) = elim (Option-cases (sub_bucket tx bu key)) [
    | inl e ↦ rw (walk, bolt.sub_bucket-put tx b bu k v key, e) refl
    | inr (child, e) ↦
        rw (walk, bolt.sub_bucket-put tx b bu k v key, e) (walk-put tx b k v child next rest)
  ]

  -- The bucket and the key that a path names; `none` where it names none.
  unfoldable pub locate : Tx → List ℕ → List (List ℕ) → Option (Bucket × List ℕ)
  locate tx name [] = none
  locate tx name (key ∷ rest) = elim (bucket tx name) [
    | none ↦ none
    | some bu ↦ walk bolt codec tx bu key rest
  ]

  pub locate-put :
      (tx : Tx) (b : Bucket) (k v name : List ℕ) (keys : List (List ℕ))
      → locate (put tx b k v).0 name keys ≡ locate tx name keys
  unfolding locate
  locate-put tx b k v name [] = refl
  locate-put tx b k v name (key ∷ rest) = elim (Option-cases (bucket tx name)) [
    | inl e ↦ rw (locate, bolt.bucket-put tx b k v name, e) refl
    | inr (bu, e) ↦ rw (locate, bolt.bucket-put tx b k v name, e) (walk-put tx b k v bu key rest)
  ]

  pub store_nested_tx-locate :
      (tx : Tx) (name : List ℕ) (keys : List (List ℕ)) (v : T)
      → (store_nested_tx bolt codec tx name keys v).1 ≡ none
      → (b : Bucket) × (k : List ℕ) × (locate tx name keys ≡ some (b, k))
        × (store_nested_tx bolt codec tx name keys v ≡ put tx b k (to_json codec v))
  unfolding locate store_nested_tx store_nested_keys
  store_nested_tx-locate tx name [] v h = elim (Option-cases (bucket tx name)) [
    | inl e ↦ absurd ground arith
    | inr (bu, e) ↦ absurd ground arith
  ]
  store_nested_tx-locate tx name (key ∷ rest) v h = elim (Option-cases (bucket tx name)) [
    | inl e ↦ absurd ground arith
    | inr (bu, e) ↦ elim (Option-cases (walk bolt codec tx bu key rest)) [
      | inl e2 ↦ absurd ground arith
      | inr ((b, k), e2) ↦
          (b, k, rw (e, locate) e2, rw (e, store_nested_tx) (rw (e2, store_nested_keys) refl))
    ]
  ]

  pub fetch_tx-locate :
      (debug : Bool) (tx : Tx) (name : List ℕ) (keys : List (List ℕ)) (b : Bucket) (k : List ℕ)
      → locate tx name keys ≡ some (b, k)
      → k ≢ []
      → fetch_tx bolt codec debug tx name keys ≡ decoded bolt codec (decode_json codec (get tx b k))
  unfolding locate fetch_tx fetch_keys walk
  fetch_tx-locate debug tx name [] b k h ne = ground arith
  fetch_tx-locate debug tx name ([] ∷ []) b k h ne = elim (Option-cases (bucket tx name)) [
    | inl e ↦ ground arith
    | inr (bu, e) ↦ ground arith
  ]
  fetch_tx-locate debug tx name ((c ∷ cs) ∷ []) b k h ne = elim (Option-cases (bucket tx name)) [
    | inl e ↦ ground arith
    | inr (bu, e) ↦ ground arith
  ]
  fetch_tx-locate debug tx name (key ∷ next ∷ rest) b k h ne =
      elim (Option-cases (bucket tx name)) [ inl e ↦ ground arith | inr (bu, e) ↦ ground arith ]

  pub put-key_ne : (tx : Tx) (b : Bucket) (k v : List ℕ) → (put tx b k v).1 ≡ none → k ≢ []
  put-key_ne tx b [] v h = absurd (bolt.put-empty_key tx b v h)
  put-key_ne tx b (c ∷ k) v h = ground arith

  -- Within a transaction, what a fetch at the path of a store that succeeds reads.
  pub fetch_tx-store_nested_tx :
      (debug : Bool) (tx : Tx) (name : List ℕ) (keys : List (List ℕ)) (v : T)
      → (store_nested_tx bolt codec tx name keys v).1 ≡ none
      → fetch_tx bolt codec debug (store_nested_tx bolt codec tx name keys v).0 name keys
        ≡ decoded bolt codec (decode_json codec (to_json codec v))
  fetch_tx-store_nested_tx debug tx name keys v h =
      let (b, k, at, is) = store_nested_tx-locate tx name keys v h in
      let ok = ap (λ r. r.1) (sym is) ∙ h in
      rw is (
        fetch_tx-locate debug (put tx b k (to_json codec v)).0 name keys b k
          (locate-put tx b k (to_json codec v) name keys ∙ at)
          (put-key_ne tx b k (to_json codec v) ok)
        ∙ ap (λ w. decoded bolt codec (decode_json codec w))
            (bolt.get-put_self tx b k (to_json codec v) ok))

  -- A store in a transaction is a Put where its path leads, or it changes nothing.
  pub store_nested_tx-Put :
      (tx : Tx) (name : List ℕ) (keys : List (List ℕ)) (v : T)
      → ((store_nested_tx bolt codec tx name keys v).0 ≡ tx)
        ⊎ ((b : Bucket) × (k : List ℕ) × (locate tx name keys ≡ some (b, k))
            × ((store_nested_tx bolt codec tx name keys v).0 ≡ (put tx b k (to_json codec v)).0))
  unfolding locate store_nested_tx store_nested_keys
  store_nested_tx-Put tx name [] v = elim (Option-cases (bucket tx name)) [
    | inl e ↦ inl (rw (store_nested_tx, e) refl)
    | inr (bu, e) ↦ inl (rw (store_nested_tx, e) refl)
  ]
  store_nested_tx-Put tx name (key ∷ rest) v = elim (Option-cases (bucket tx name)) [
    | inl e ↦ inl (rw (store_nested_tx, e) refl)
    | inr (bu, e) ↦ elim (Option-cases (walk bolt codec tx bu key rest)) [
      | inl e2 ↦ inl (rw (store_nested_tx, e) (rw (e2, store_nested_keys) refl))
      | inr ((b, k), e2) ↦
          inr (b, k, rw (e, locate) e2, rw (e, store_nested_tx) (rw (e2, store_nested_keys) refl))
    ]
  ]

  fetched-put :
      (tx : Tx) (b : Bucket) (k w : List ℕ) (at : Option (Bucket × List ℕ))
      → at ≢ some (b, k)
      → fetched bolt codec (put tx b k w).0 at ≡ fetched bolt codec tx at
  fetched-put tx b k w none ne = refl
  fetched-put tx b k w (some (b2, j)) ne =
      ap (λ x. decoded bolt codec (decode_json codec x))
        (bolt.get-put_other tx b b2 k j w (λ h. ne (ap some (sym h))))

  fetch_keys-put :
      (debug : Bool) (tx : Tx) (b : Bucket) (k w : List ℕ) (bu : Bucket) (key : List ℕ)
      (rest : List (List ℕ))
      → walk bolt codec tx bu key rest ≢ some (b, k)
      → fetch_keys bolt codec debug (put tx b k w).0 bu (key ∷ rest)
        ≡ fetch_keys bolt codec debug tx bu (key ∷ rest)
  unfolding fetch_keys
  fetch_keys-put debug tx b k w bu [] [] ne = refl
  fetch_keys-put debug tx b k w bu [] (next ∷ rest) ne =
      ap (fetched bolt codec (put tx b k w).0) (walk-put tx b k w bu [] (next ∷ rest))
      ∙ fetched-put tx b k w (walk bolt codec tx bu [] (next ∷ rest)) ne
  fetch_keys-put debug tx b k w bu (c ∷ key) rest ne =
      ap (fetched bolt codec (put tx b k w).0) (walk-put tx b k w bu (c ∷ key) rest)
      ∙ fetched-put tx b k w (walk bolt codec tx bu (c ∷ key) rest) ne

  -- A Put elsewhere than at the end of a path leaves what a fetch at the path returns.
  pub fetch_tx-put :
      (debug : Bool) (tx : Tx) (b : Bucket) (k w name : List ℕ) (keys : List (List ℕ))
      → locate tx name keys ≢ some (b, k)
      → fetch_tx bolt codec debug (put tx b k w).0 name keys
        ≡ fetch_tx bolt codec debug tx name keys
  unfolding locate fetch_tx fetch_keys
  fetch_tx-put debug tx b k w name [] ne = rw (fetch_tx, bolt.bucket-put tx b k w name) refl
  fetch_tx-put debug tx b k w name (key ∷ rest) ne = elim (Option-cases (bucket tx name)) [
    | inl e ↦ rw (fetch_tx, bolt.bucket-put tx b k w name, e) refl
    | inr (bu, e) ↦
        rw (fetch_tx, bolt.bucket-put tx b k w name, e)
          (fetch_keys-put debug tx b k w bu key rest (λ h. ne (rw (locate, e) h)))
  ]

  -- What debug logging changes for a fetch in a transaction.
  pub fetch_tx_debug :
      (tx : Tx) (name : List ℕ) (keys : List (List ℕ))
      → ((keys ≢ [])
          × (fetch_tx bolt codec true tx name keys ≡ fetch_tx bolt codec false tx name keys))
        ⊎ ((keys ≡ [])
            × ((bucket tx name ≡ none)
                ⊎ ((fetch_tx bolt codec true tx name keys ≡ panicked)
                    × (fetch_tx bolt codec false tx name keys
                        ≡ returned codec.zero_value (some no_key)))))
  unfolding fetch_tx fetch_keys
  fetch_tx_debug tx name [] = elim (Option-cases (bucket tx name)) [
    | inl e ↦ inr (refl, inl e)
    | inr (bu, e) ↦ inr (refl, inr (rw (fetch_tx, e) refl, rw (fetch_tx, e) refl))
  ]
  fetch_tx_debug tx name ([] ∷ []) = inl (ground arith, refl)
  fetch_tx_debug tx name ([] ∷ next ∷ rest) = inl (ground arith, refl)
  fetch_tx_debug tx name ((c ∷ key) ∷ rest) = inl (ground arith, refl)
