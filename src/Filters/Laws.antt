-- ===== src/Filters/Laws.antt =====
-- What FilterInPlace and FilterCopy return, and what the first does to the memory.
use mostly.Common.{
  ◌≡◌, ◌≢◌, ◌↔◌, refl, sym, ap, Bool, List, [], ◌∷◌, ◌++◌, Option, none, some, append_assoc,
  append-nil, arith, length, drop, filter_by, take-append_length, drop-append_length,
}
use mostly.Filters.{Slice, view, filter_in_place, filter_copy, copy_loop, elems}
use mostly.Filters.Loops.{in_place_loop_lem}

module _ {ℓ} {A : Type ℓ} (keepfn : A → Bool) where
  -- FilterInPlace never reads out of range. The elements that pass keepfn are moved, in their order,
  -- to the front of the slice's window, the cells behind them keep what they held before, and no
  -- cell outside the window changes. The slice that is returned starts where the old one did and
  -- ends behind the last element kept.
  pub filter_in_place_lem :
      (pre xs post : List A)
      → let kept = filter_by keepfn xs in
        filter_in_place keepfn (pre ++ (xs ++ post)) (record { base = length pre; len = length xs })
        ≡ some (
          pre ++ (kept ++ (drop (length kept) xs ++ post)),
          record { base = length pre; len = length kept },
        )
  unfolding filter_in_place
  filter_in_place_lem pre [] post = refl
  filter_in_place_lem pre (x ∷ xs) post =
      ground (arith, in_place_loop_lem keepfn (x ∷ xs) pre [] post (length pre) 0 0)

  copy_loop-some :
      (xs done : List A) → copy_loop keepfn xs (some done) ≡ some (done ++ filter_by keepfn xs)
  unfolding copy_loop
  copy_loop-some [] done = ap some (sym (append-nil done))
  copy_loop-some (x ∷ xs) done = ground (
    arith,
    copy_loop-some xs done,
    copy_loop-some xs (done ++ x ∷ []),
    append_assoc done (x ∷ []) (filter_by keepfn xs),
  )

  copy_loop-none :
      (xs : List A)
      → (elems (copy_loop keepfn xs none) ≡ filter_by keepfn xs)
        × ((copy_loop keepfn xs none ≡ none) ↔ (filter_by keepfn xs ≡ []))
  unfolding copy_loop
  copy_loop-none [] = (refl, ((λ e. refl), λ e. refl))
  copy_loop-none (x ∷ xs) = ground (arith, copy_loop-none xs, copy_loop-some xs (x ∷ []))

  -- FilterCopy returns the elements that pass keepfn, in their order. It returns the nil slice
  -- exactly when none passes and the argument is nil or has an element.
  pub filter_copy_lem :
      (a : Option (List A))
      → (elems (filter_copy keepfn a) ≡ filter_by keepfn (elems a))
        × ((filter_copy keepfn a ≡ none) ↔ ((filter_by keepfn (elems a) ≡ []) × (a ≢ some [])))
  unfolding filter_copy
  filter_copy_lem none = ground arith
  filter_copy_lem (some []) = ground arith
  filter_copy_lem (some (x ∷ xs)) = ground (arith, copy_loop-none (x ∷ xs))

  -- The slice that FilterInPlace returns shows exactly the elements that FilterCopy returns for the
  -- same slice.
  pub view-filter_in_place :
      (pre xs post : List A)
      → (mem : List A) × (s : Slice) × (filter_in_place keepfn
            (pre ++ (xs ++ post))
            (record { base = length pre; len = length xs })
          ≡ some (mem, s))
        × (view mem s ≡ elems (filter_copy keepfn (some xs)))
  view-filter_in_place pre xs post =
      let kept = filter_by keepfn xs in
      let behind = drop (length kept) xs ++ post in
      (
        _,
        _,
        filter_in_place_lem pre xs post,
        rw (drop-append_length pre (kept ++ behind), take-append_length kept behind)
            (sym (filter_copy_lem (some xs)).0),
      )
