-- ===== src/Superchan/State/Laws.antt =====
-- Adding deferred functions to a superchan.
use mostly.Common.{
  ◌≡◌, ◌≢◌, ◌⊎◌, inl, inr, refl, List, [], ◌∷◌, ◌++◌, reverse, reverse-cons, append_assoc, true,
  false, none, some, arith,
}
use mostly.Cancellable.Context.{Store}
use mostly.Superchan.State.{
  Superchan, Outcome, Panic, ok, panic, defer_after_cancel, has_err, defer_loop, defer, defer_first,
  defer_last, deferfirst_already_set, deferlast_already_set,
}

module _ {F : Type 0} where
  defer_loop-some : (f fs : List F) → defer_loop f (some fs) ≡ some (reverse f ++ fs)
  unfolding defer_loop
  defer_loop-some [] fs = refl
  defer_loop-some (ff ∷ f) fs =
      ground (
        arith,
        defer_loop-some f (ff ∷ fs),
        reverse-cons ff f,
        append_assoc (reverse f) (ff ∷ []) fs,
      )

module _ {F T : Type 0} (s : Superchan F T) (store : Store) where
  -- On a context that is done, Defer, DeferFirst and DeferLast panic. Otherwise Defer puts its
  -- functions in front of those deferred before, the last one first, and DeferFirst and DeferLast
  -- set their function if none is set and panic if one is. Nothing else of the superchan changes.
  pub defer_branches :
      (f : List F) (g : F) (fs : List F)
      → s.deferfuncs ≡ some fs
      → ((has_err s store ≡ true)
          × (defer f s store ≡ panic defer_after_cancel)
          × (defer_first g s store ≡ panic defer_after_cancel)
          × (defer_last g s store ≡ panic defer_after_cancel))
        ⊎ ((has_err s store ≡ false)
            × (defer f s store ≡ ok (record s { deferfuncs = some (reverse f ++ fs) }))
            × (((s.deferfirst ≡ none)
                  × (defer_first g s store ≡ ok (record s { deferfirst = some g })))
                ⊎ ((s.deferfirst ≢ none) × (defer_first g s store ≡ panic deferfirst_already_set)))
            × (((s.deferlast ≡ none)
                  × (defer_last g s store ≡ ok (record s { deferlast = some g })))
                ⊎ ((s.deferlast ≢ none) × (defer_last g s store ≡ panic deferlast_already_set))))
  unfolding defer defer_first defer_last
  defer_branches f g fs e = ground (arith, defer_loop-some f fs)

  -- What Defer has done when it does not panic.
  pub defer-eq-ok :
      (t : Superchan F T) (f fs : List F)
      → s.deferfuncs ≡ some fs
      → defer f s store ≡ ok t
      → t ≡ record s { deferfuncs = some (reverse f ++ fs) }
  unfolding defer
  defer-eq-ok t f fs e h = ground (arith, defer_loop-some f fs)

-- To split on a call and keep the equation.
pub Outcome-cases {ℓ} :
    {A : Type ℓ} (o : Outcome A) → ((a : A) × (o ≡ ok a)) ⊎ ((p : Panic) × (o ≡ panic p))
Outcome-cases (ok a) = inl (a, refl)
Outcome-cases (panic p) = inr (p, refl)
