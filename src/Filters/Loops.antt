-- ===== src/Filters/Loops.antt =====
-- The two loops of filters/filters.go against `filter_by`.
use mostly.Common.{
  ℕ, suc, ◌+◌, ◌≡◌, inl, inr, Bool, List, [], ◌∷◌, ◌++◌, Option, some, append_assoc, append-nil,
  arith, length, length-append, get_elem?, set, drop, filter_by, get_elem?-append_length,
  set-append_length, Bool-cases, ◌==◌, if◌then◌else◌, not, ◌&&◌,
}
use mostly.Filters.{in_place_loop}

module _ {ℓ} {A : Type ℓ} where
  -- Reading at the first element that is left to do.
  read_next :
      (front gap : List A) (x : A) (rest : List A) (base good i : ℕ)
      → base + good ≡ length front
      → i ≡ good + length gap
      → get_elem? (front ++ (gap ++ x ∷ rest)) (base + i) ≡ some x
  read_next front gap x rest base good i at_front at_gap =
      let place : base + i ≡ length (front ++ gap) = omega (arith, length-append front gap) in
      rw (place, ← append_assoc front gap (x ∷ rest))
        (get_elem?-append_length (front ++ gap) x rest)

  write_front :
      (front : List A) (y v : A) (rest : List A) (n : ℕ)
      → n ≡ length front
      → set (front ++ y ∷ rest) n v ≡ front ++ v ∷ rest
  write_front front y v rest n e = rw e (set-append_length front y v rest)

module _ {ℓ} {A : Type ℓ} (keepfn : A → Bool) where
  -- `front` is settled, `gap` holds what was passed over, and `todo` is left.
  abbrev Settles : List A → List A → List A → List A → ℕ → Option (List A × ℕ) → Type ℓ
  Settles front gap todo post good r =
      let kept = filter_by keepfn todo in
      r ≡ some (front ++ (kept ++ (drop (length kept) (gap ++ todo) ++ post)), good + length kept)

  in_place_loop_step :
      (base rounds i good : ℕ) (mem : List A) {x : A}
      → get_elem? mem (base + i) ≡ some x
      → in_place_loop keepfn base (suc rounds) i good mem
        ≡ in_place_loop keepfn base rounds
            (suc i)
            (if keepfn x then suc good else good)
            (if keepfn x && not (i == good) then set mem (base + good) x else mem)
  unfolding in_place_loop
  in_place_loop_step base rounds i good mem h = rw (h, in_place_loop)

  pub in_place_loop_lem :
      (todo front gap post : List A) (base good i : ℕ)
      → base + good ≡ length front
      → i ≡ good + length gap
      → Settles front gap todo post good
          (in_place_loop keepfn base (length todo) i good (front ++ (gap ++ (todo ++ post))))
  unfolding in_place_loop
  in_place_loop_lem [] front gap post base good i hf hg = ground (arith, append-nil gap)
  in_place_loop_lem (x ∷ todo) front [] post base good i hf hg =
      let step =
        in_place_loop_step base (length todo) i good (front ++ x ∷ (todo ++ post))
          (read_next front [] x (todo ++ post) base good i hf hg) in
      elim (Bool-cases (keepfn x)) [
        | inl kept ↦
            let rest = filter_by keepfn todo in
            let tail = drop (length rest) todo ++ post in
            let ih =
              in_place_loop_lem todo (front ++ x ∷ []) [] post base (suc good) (suc i)
                (omega (arith, length-append front (x ∷ []))) (omega arith) in
            ground (
              arith,
              step,
              ih,
              append_assoc front (x ∷ []) (todo ++ post),
              append_assoc front (x ∷ []) (rest ++ tail),
            )
        | inr dropped ↦
            let ih =
              in_place_loop_lem todo front (x ∷ []) post base good (suc i) hf (omega arith) in
            ground (arith, step, ih)
      ]
  in_place_loop_lem (x ∷ todo) front (g ∷ gap) post base good i hf hg =
      let step =
        in_place_loop_step base (length todo) i good (front ++ g ∷ (gap ++ x ∷ (todo ++ post)))
          (read_next front (g ∷ gap) x (todo ++ post) base good i hf hg) in
      elim (Bool-cases (keepfn x)) [
        | inl kept ↦
            let rest = filter_by keepfn todo in
            let tail = drop (length rest) ((gap ++ x ∷ []) ++ todo) ++ post in
            let ih =
              in_place_loop_lem todo (front ++ x ∷ []) (gap ++ x ∷ []) post base (suc good) (suc i)
                (omega (arith, length-append front (x ∷ [])))
                (omega (arith, length-append gap (x ∷ []))) in
            ground (
              arith,
              step,
              ih,
              append_assoc front (x ∷ []) ((gap ++ x ∷ []) ++ (todo ++ post)),
              append_assoc gap (x ∷ []) (todo ++ post),
              append_assoc gap (x ∷ []) todo,
              write_front front g x (gap ++ x ∷ (todo ++ post)) (base + good) hf,
              append_assoc front (x ∷ []) (rest ++ tail),
            )
        | inr dropped ↦
            let ih =
              in_place_loop_lem todo front (g ∷ (gap ++ x ∷ [])) post base good (suc i) hf
                (omega (arith, length-append gap (x ∷ []))) in
            ground (
              arith,
              step,
              ih,
              append_assoc gap (x ∷ []) (todo ++ post),
              append_assoc gap (x ∷ []) todo,
            )
      ]
