-- ===== src/Anydb/Memory.antt =====
-- A database in memory that behaves as the Bolt of the interface: every bucket is there, and is
-- numbered by its depth.
use mostly.Common.{
  ℕ, suc, ◌≡◌, ◌≢◌, refl, ap, inl, inr, List, [], ◌∷◌, Bool, true, false, ◌&&◌, ◌==◌, if◌then◌else◌,
  Option, none, some, arith, Bool-cases,
}
use mostly.Anydb.Interface.{Bolt, DbError, bolt_error}

unfoldable pub same_key : List ℕ → List ℕ → Bool
same_key [] [] = true
same_key [] (d ∷ j) = false
same_key (c ∷ k) [] = false
same_key (c ∷ k) (d ∷ j) = (c == d) && same_key k j

same_key_refl : (k : List ℕ) → same_key k k ≡ true
unfolding same_key
same_key_refl [] = refl
same_key_refl (c ∷ k) = ground (arith, same_key_refl k)

same_key-same : (k j : List ℕ) → same_key k j ≡ true → k ≡ j
unfolding same_key
same_key-same [] [] h = refl
same_key-same [] (d ∷ j) h = ground arith
same_key-same (c ∷ k) [] h = ground arith
same_key-same (c ∷ k) (d ∷ j) h = ground (arith, same_key-same k j)

abbrev pub Contents : Type 0
Contents = ℕ → List ℕ → List ℕ

unfoldable pub write_key : Contents → ℕ → List ℕ → List ℕ → Contents × Option DbError
unfolding same_key
write_key t b [] v = (t, some (bolt_error 1))
write_key t b (c ∷ k) v = (λ b2 j. if (b == b2) && same_key (c ∷ k) j then v else t b2 j, none)

unfoldable pub commit : Contents → Contents × Option DbError → Contents × Option DbError
commit db (t, none) = (t, none)
commit db (t, some e) = (db, some e)

pub write_key_self :
    (t : Contents) (b : ℕ) (k v : List ℕ)
    → (write_key t b k v).1 ≡ none
    → (write_key t b k v).0 b k ≡ v
unfolding write_key
write_key_self t b [] v h = ground arith
write_key_self t b (c ∷ k) v h = ground (arith, same_key_refl (c ∷ k))

pub write_key_other :
    (t : Contents) (b c : ℕ) (k j v : List ℕ)
    → ◌≢◌ {A = ℕ × List ℕ} (b, k) (c, j)
    → (write_key t b k v).0 c j ≡ t c j
unfolding write_key
write_key_other t b c [] j v ne = refl
write_key_other t b c (d ∷ k) j v ne = elim (Bool-cases (b == c)) [
  | inl e ↦ elim (Bool-cases (same_key (d ∷ k) j)) [
    | inl e2 ↦
        let bc : b ≡ c = ground arith in let kj = same_key-same (d ∷ k) j e2 in absurd (ne cc)
    | inr e2 ↦ ground arith
  ]
  | inr e ↦ ground arith
]

pub write_key_failed :
    (t : Contents) (b : ℕ) (k v : List ℕ) → (write_key t b k v).1 ≢ none → (write_key t b k v).0 ≡ t
unfolding write_key
write_key_failed t b [] v h = refl
write_key_failed t b (c ∷ k) v h = absurd (h refl)

pub write_key_empty : (t : Contents) (b : ℕ) (v : List ℕ) → (write_key t b [] v).1 ≢ none
unfolding write_key
write_key_empty t b v h = absurd (ground arith)

pub commit_error :
    (db : Contents) (r : Contents × Option DbError) (e : DbError)
    → r.1 ≡ some e
    → ((commit db r).1 ≡ some e) × ((commit db r).0 ≡ db)
unfolding commit
commit_error db (t, none) e h = absurd (ground arith)
commit_error db (t, some d) e h = (h, refl)

pub commit_success :
    (db : Contents) (r : Contents × Option DbError)
    → r.1 ≡ none
    → ((commit db r).1 ≡ none) × ((commit db r).0 ≡ r.0)
unfolding commit
commit_success db (t, none) h = (refl, refl)
commit_success db (t, some d) h = absurd (ground arith)

abbrev pub memory : Bolt
memory = record {
  Db = Contents;
  Tx = Contents;
  Bucket = ℕ;
  snapshot = λ db. db;
  bucket = λ t n. some 0;
  sub_bucket = λ t b n. some (suc b);
  get = λ t b k. t b k;
  put = write_key;
  view = λ db f. f db;
  update = λ db f. commit db (f db);
  get-put_self = write_key_self;
  get-put_other = write_key_other;
  bucket-put = λ t b k v n. refl;
  sub_bucket-put = λ t b c k v n. refl;
  put-empty_key = write_key_empty;
  put_failed = write_key_failed;
  view_lem = λ db f. refl;
  update_same = λ db f g h. ap (commit db) h;
  update_error = λ db f e h. commit_error db (f db) e h;
  update_commit = λ db f h. inl (commit_success db (f db) h);
}
