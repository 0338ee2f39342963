-- ===== src/Superchan/Rundeferred/Laws.antt =====
-- What rundeferred has done when it returns.
use mathlib.Core.List.Perm
use mostly.Common.{
  ◌≡◌, ◌⊎◌, refl, sym, ◌∙◌, ap, subst, inl, inr, List, [], ◌∷◌, ◌++◌, reverse, arith, Bool, true,
  false, some, append-nil, Bool-cases,
}
use mostly.Cancellable.Context.{Store}
use mostly.Superchan.State.{Superchan, Config, ok, groups, optional, funcs, is_dead, clear, defer}
use mostly.Superchan.State.Laws.{defer-eq-ok}
use mostly.Superchan.Goroutines.{Event}
use mostly.Superchan.Goroutines.Barriers.{both, Stretches, Run-Stretches}
use mostly.Superchan.Rundeferred.{
  Rundeferred, in_goroutines, in_sequence, finished, call_each, call_groups,
}

module _ {F : Type 0} (panics : F → Bool) where
  call_each-both :
      (fs : List F) → (call_each panics fs).1 ≡ true → (call_each panics fs).0 ≡ both panics fs
  unfolding call_each
  call_each-both [] h = refl
  call_each-both (f ∷ fs) h = ground (arith, call_each-both fs)

  call_groups-Stretches :
      (gs : List (List F))
      → (call_groups panics gs).1 ≡ true
      → Stretches panics gs (call_groups panics gs).0
  unfolding call_groups
  call_groups-Stretches [] h = refl
  call_groups-Stretches (g ∷ gs) h = elim (Bool-cases (call_each panics g).1) [
    | inl fine ↦ rw (fine) (
      (call_each panics g).0,
      (call_groups panics gs).0,
      refl,
      rw (call_each-both g fine) (Perm.refl _),
      call_groups-Stretches gs (ground arith),
    )
    | inr bad ↦ ground arith
  ]

  module _ {T : Type 0} (cfg : Config) where
    -- When rundeferred returns, in goroutines or by direct calls, the events fall into three
    -- stretches: those of the DeferFirst function, then those of the deferred functions, then those
    -- of the DeferLast function. Each function has begun and ended once in its stretch, and no panic
    -- has gone through. The superchan is dead, its three fields are cleared and the rest is kept.
    pub Rundeferred-finished :
        {s t : Superchan F T} {es : List (Event F)}
        → Rundeferred panics cfg s es t finished
        → Stretches panics (groups s) es × (t ≡ clear s) × (is_dead s ≡ false) × (is_dead t ≡ true)
    unfolding clear is_dead
    Rundeferred-finished {s} (in_goroutines a h r) = (Run-Stretches panics _ _ _ r, refl, a, refl)
    Rundeferred-finished {s} (in_sequence a h e) = (
      subst (Stretches panics (groups s)) (ap (λ r. r.0) e)
          (call_groups-Stretches (groups s) (ap (λ r. r.1) e)),
      refl,
      a,
      refl,
    )

  append_same : {A : Type 0} {a b c d : List A} → a ≡ b → c ≡ d → a ++ c ≡ b ++ d
  append_same {a = a} {d = d} same also = ap (λ l. a ++ l) also ∙ ap (λ l. l ++ d) same

  -- Direct calls of groups that come to an end are those of the functions one after another.
  call_groups-cons :
      (g : List F) (gs : List (List F))
      → (call_groups panics (g ∷ gs)).1 ≡ true
      → ((call_groups panics (g ∷ gs)).0 ≡ both panics g ++ (call_groups panics gs).0)
        × ((call_groups panics gs).1 ≡ true)
  unfolding call_groups
  call_groups-cons g gs fine = elim (Bool-cases (call_each panics g).1) [
    | inl quiet ↦
        rw (call_groups, quiet)
          (ap (λ l. l ++ (call_groups panics gs).0) (call_each-both g quiet), ground arith)
    | inr bad ↦ absurd (ground arith)
  ]

  -- Without goroutines, rundeferred that returns has made direct calls in order, each to its end.
  direct_calls :
      {T : Type 0} (cfg : Config) {s t : Superchan F T} {fs : List (Event F)}
      → cfg.use_goroutine_defer ≡ false
      → Rundeferred panics cfg s fs t finished
      → fs
        ≡ both panics (optional s.deferfirst)
          ++ (both panics (funcs s.deferfuncs) ++ both panics (optional s.deferlast))
  unfolding call_groups
  direct_calls cfg direct (in_goroutines a h r) = absurd (ground arith)
  direct_calls cfg {s} direct (in_sequence a h e) =
      let f = optional s.deferfirst in
      let g = funcs s.deferfuncs in
      let l = optional s.deferlast in
      let (is1, fine1) = call_groups-cons f (g ∷ l ∷ []) (ap (λ r. r.1) e) in
      let (is2, fine2) = call_groups-cons g (l ∷ []) fine1 in
      let (is3, _) = call_groups-cons l [] fine2 in
      ap (λ r. r.0) (sym e)
      ∙ is1
      ∙ ap (λ x. both panics f ++ x)
          (is2 ∙ ap (λ x. both panics g ++ x) (is3 ∙ append-nil (both panics l)))

  -- The functions were called one after another, each to its end, DeferFirst's first, DeferLast's
  -- last and the deferred ones in the order in which they stand, or goroutines were used.
  abbrev pub InOrder : {T : Type 0} → Config → Superchan F T → List (Event F) → Type 0
  InOrder cfg s fs =
      (cfg.use_goroutine_defer ≡ true)
      ⊎ (fs
          ≡ both panics (optional s.deferfirst)
            ++ (both panics (funcs s.deferfuncs) ++ both panics (optional s.deferlast)))

  pub Rundeferred-InOrder :
      {T : Type 0} (cfg : Config) {s t : Superchan F T} {fs : List (Event F)}
      → Rundeferred panics cfg s fs t finished
      → InOrder cfg s fs
  Rundeferred-InOrder cfg run = elim (Bool-cases cfg.use_goroutine_defer) [
    | inl parallel ↦ inl parallel
    | inr direct ↦ inr (direct_calls cfg direct run)
  ]

  call_each_quiet :
      ((f : F) → panics f ≡ false) → (fs : List F) → call_each panics fs ≡ (both panics fs, true)
  unfolding call_each
  call_each_quiet quiet [] = refl
  call_each_quiet quiet (f ∷ fs) = ground (arith, quiet f, call_each_quiet quiet fs)

  pub call_groups_quiet :
      ((f : F) → panics f ≡ false)
      → (a b c : List F)
      → call_groups panics (a ∷ b ∷ c ∷ [])
        ≡ (both panics a ++ (both panics b ++ both panics c), true)
  unfolding call_groups
  call_groups_quiet quiet a b c =
      rw (call_each_quiet quiet a, call_each_quiet quiet b, call_each_quiet quiet c)
        (ground (arith, append-nil (both panics c)))

  -- Without goroutines and where no deferred function panics, rundeferred after a call of Defer runs
  -- the DeferFirst function, then the functions of that call from the last one to the first, then
  -- those that were deferred earlier, then the DeferLast function, each to its end before the next.
  pub Rundeferred-defer :
      {T : Type 0} (cfg : Config) (s t : Superchan F T) (store : Store) (f fs : List F)
      → cfg.use_goroutine_defer ≡ false
      → ((g : F) → panics g ≡ false)
      → s.deferfuncs ≡ some fs
      → defer f s store ≡ ok t
      → Rundeferred panics cfg t
          (both panics (optional s.deferfirst)
            ++ (both panics (reverse f ++ fs) ++ both panics (optional s.deferlast)))
          (clear t)
          finished
  unfolding is_dead
  Rundeferred-defer cfg s t store f fs direct quiet live deferred =
      let kept : t ≡ record s { deferfuncs = some (reverse f ++ fs) } =
        defer-eq-ok s store t f fs live deferred in
      rw kept (
        in_sequence refl direct (
          call_groups_quiet quiet (optional s.deferfirst) (reverse f ++ fs) (optional s.deferlast)))
