-- ===== src/Anydb/Interface.antt =====
-- What anydb relies on of go.etcd.io/bbolt, as a parameter: the contents that a transaction sees, the
-- operations on buckets, and View and Update of an open database.
use mostly.Common.{ℕ, ◌≡◌, ◌≢◌, ◌⊎◌, List, [], Option, none, some}
use mostly.Ncode.Json.{DecodeError}

-- The errors of the package: bbolt's ErrBucketNotFound, the package's own, those of decoding, those
-- that bbolt's Put and Update return, and those of a caller's function. `panic` stands for a panic that
-- unwinds the call: in Update it ends the transaction as an error does, and goes on to the caller.
pub data DbError : Type 0 where
  bucket_not_found no_key empty_key err_zero_length bad_nested_lookup panic : DbError
  decoding : DecodeError → DbError
  bolt_error modifier_error : ℕ → DbError

pub record Bolt : Type 1 where
  pub Db : Type 0
  pub Tx : Type 0
  pub Bucket : Type 0
  -- What a transaction that begins now sees.
  pub snapshot : Db → Tx
  -- Tx.Bucket and Bucket.Bucket; `none` is nil.
  pub bucket : Tx → List ℕ → Option Bucket
  pub sub_bucket : Tx → Bucket → List ℕ → Option Bucket
  -- Bucket.Get; nil and the empty value are both empty.
  pub get : Tx → Bucket → List ℕ → List ℕ
  pub put : Tx → Bucket → List ℕ → List ℕ → Tx × Option DbError
  pub view : {R : Type 0} → Db → (Tx → R) → R
  pub update : Db → (Tx → Tx × Option DbError) → Db × Option DbError
  -- A Put that succeeds sets its key and no other, and leaves the buckets as they are. It fails on an
  -- empty key, and a Put that fails changes nothing.
  pub get-put_self :
      (t : Tx) (b : Bucket) (k v : List ℕ) → (put t b k v).1 ≡ none → get (put t b k v).0 b k ≡ v
  pub get-put_other :
      (t : Tx) (b c : Bucket) (k j v : List ℕ)
      → ◌≢◌ {A = Bucket × List ℕ} (b, k) (c, j)
      → get (put t b k v).0 c j ≡ get t c j
  pub bucket-put : (t : Tx) (b : Bucket) (k v n : List ℕ) → bucket (put t b k v).0 n ≡ bucket t n
  pub sub_bucket-put :
      (t : Tx) (b c : Bucket) (k v n : List ℕ) → sub_bucket (put t b k v).0 c n ≡ sub_bucket t c n
  pub put-empty_key : (t : Tx) (b : Bucket) (v : List ℕ) → (put t b [] v).1 ≢ none
  pub put_failed :
      (t : Tx) (b : Bucket) (k v : List ℕ) → (put t b k v).1 ≢ none → (put t b k v).0 ≡ t
  -- View runs its function on the present contents and returns what it returns, and Update runs its
  -- function on the present contents once. Update rolls back on
  -- an error of its function; otherwise it commits, or rolls back and reports an error of its own.
  pub view_lem : {R : Type 0} (db : Db) (f : Tx → R) → view db f ≡ f (snapshot db)
  pub update_same :
      (db : Db) (f g : Tx → Tx × Option DbError)
      → f (snapshot db) ≡ g (snapshot db)
      → update db f ≡ update db g
  pub update_error :
      (db : Db) (f : Tx → Tx × Option DbError) (e : DbError)
      → (f (snapshot db)).1 ≡ some e
      → ((update db f).1 ≡ some e) × (snapshot (update db f).0 ≡ snapshot db)
  pub update_commit :
      (db : Db) (f : Tx → Tx × Option DbError)
      → (f (snapshot db)).1 ≡ none
      → (((update db f).1 ≡ none) × (snapshot (update db f).0 ≡ (f (snapshot db)).0))
        ⊎ ((e : DbError) × ((update db f).1 ≡ some e) × (snapshot (update db f).0 ≡ snapshot db))
