-- ===== src/Ncode/Twist/Laws.antt =====
-- The loops of ncode/twist.go against `map`.
use mostly.Common.{
  ℕ, suc, ◌≡◌, refl, ap, List, [], ◌∷◌, ◌++◌, map, Option, none, some, append_assoc, arith, length,
  length-append, length-replicate, replicate, set-append_length,
}
use mostly.Ncode.Twist.{
  CallbackError, err_skip, failure, twist_loop, twist_any, twist_error_loop, twist_any_with_error,
  Named, named, bytes, twist, twist_back,
}

module _ {ℓ κ} {T : Type ℓ} {K : Type κ} (z : K) (fn : T → K) where
  twist_loop_lem :
      (a : List T) (done : List K)
      → twist_loop fn a (length done) (done ++ replicate (length a) z) ≡ done ++ map fn a
  unfolding twist_loop
  twist_loop_lem [] done = refl
  twist_loop_lem (x ∷ a) done = rw (set-append_length done z (fn x) (replicate (length a) z)) (
      ground (
        arith,
        twist_loop_lem a (done ++ fn x ∷ []),
        length-append done (fn x ∷ []),
        append_assoc done (fn x ∷ []) (replicate (length a) z),
        append_assoc done (fn x ∷ []) (map fn a),
      ))

  pub twist_any-eq-map : (a : List T) → twist_any z a fn ≡ map fn a
  unfolding twist_any
  twist_any-eq-map a = twist_loop_lem a []

map-bytes-named : (a : List (List ℕ)) → map bytes (map named a) ≡ a
map-bytes-named [] = refl
map-bytes-named (s ∷ a) = ap (◌∷◌ s) (map-bytes-named a)

map-named-bytes : (b : List Named) → map named (map bytes b) ≡ b
map-named-bytes [] = refl
map-named-bytes (named s ∷ b) = ap (◌∷◌ (named s)) (map-named-bytes b)

-- Strings that are turned into a named type and back are the same strings in the same order, and so
-- are named values that are turned into strings and back.
pub twist_back-twist :
    (a : List (List ℕ)) (b : List Named) → (twist_back (twist a) ≡ a) × (twist (twist_back b) ≡ b)
unfolding twist twist_back
twist_back-twist a b =
    (simp (twist_any-eq-map, map-bytes-named), simp (twist_any-eq-map, map-named-bytes))

module _ {ℓ κ} {T : Type ℓ} {K : Type κ} (z : T) (fn : K → T × Option CallbackError) where
  -- The slice and the error by recursion on the elements, with no index and no write: a skipped
  -- element is the zero value, and so is every element from the first failure on.
  abbrev pub up_to_failure : List K → List T × Option CallbackError
  up_to_failure [] = ([], none)
  up_to_failure (x ∷ a) =
      let (vs, e) = up_to_failure a in
      let (v, err) = fn x in
      elim err [
        | none ↦ (v ∷ vs, e)
        | some err_skip ↦ (z ∷ vs, e)
        | some (failure n) ↦ (replicate (suc (length a)) z, some (failure n))
      ]

  twist_error_loop_lem :
      (a : List K) (done : List T)
      → twist_error_loop fn a (length done) (done ++ replicate (length a) z)
        ≡ (done ++ (up_to_failure a).0, (up_to_failure a).1)
  unfolding twist_error_loop
  twist_error_loop_lem [] done = refl
  twist_error_loop_lem (x ∷ a) done = ground (
    arith,
    twist_error_loop_lem a (done ++ (fn x).0 ∷ []),
    twist_error_loop_lem a (done ++ z ∷ []),
    set-append_length done z (fn x).0 (replicate (length a) z),
    length-append done ((fn x).0 ∷ []),
    length-append done (z ∷ []),
    append_assoc done ((fn x).0 ∷ []) (replicate (length a) z),
    append_assoc done (z ∷ []) (replicate (length a) z),
    append_assoc done ((fn x).0 ∷ []) (up_to_failure a).0,
    append_assoc done (z ∷ []) (up_to_failure a).0,
  )

  pub length-up_to_failure : (a : List K) → length (up_to_failure a).0 ≡ length a
  length-up_to_failure [] = refl
  length-up_to_failure (x ∷ a) =
      ground (arith, length-up_to_failure a, length-replicate (length a) z)

  -- TwistAnyWithError returns a slice as long as its argument. It holds at each index the value of
  -- the callback there, the zero value where the callback says ErrSkip, and the zero value from the
  -- first other error on, which is the error that is returned; with no such error, none is returned.
  pub twist_any_with_error_lem :
      (a : List K)
      → (twist_any_with_error z a fn ≡ up_to_failure a)
        × (length (twist_any_with_error z a fn).0 ≡ length a)
  unfolding twist_any_with_error
  twist_any_with_error_lem a =
      let e = twist_error_loop_lem a [] in (e, rw e (length-up_to_failure a))
