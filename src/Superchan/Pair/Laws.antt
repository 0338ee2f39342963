-- ===== src/Superchan/Pair/Laws.antt =====
-- When the goroutine of NewDouble runs the deferred functions, and whose.
use mostly.Common.{
  ℕ, ◌≡◌, ◌⊎◌, refl, sym, ap, ◌∙◌, subst, inl, inr, List, [], ◌++◌, append-nil, append_assoc, arith,
  Bool, true, false, some, Option-cases,
}
use mostly.Cancellable.Context.{Store}
use mostly.Superchan.State.{Superchan, Config, ok, is_dead, defer, new_raw}
use mostly.Superchan.State.Laws.{defer-eq-ok}
use mostly.Superchan.Goroutines.{Event}
use mostly.Superchan.Rundeferred.{Rundeferred, Finish}
use mostly.Superchan.Double.{either_done}
use mostly.Superchan.Reader.Laws.{set_deferred_alive}
use mostly.Superchan.Pair.{
  Pair, PairPhase, at_test, at_select, in_call, at_close, gone, crashed, new_double, after_call,
  is_panic, Step, loop_ends, loop_goes_on, takes_done, takes_input, call_refused, call_runs,
  call_returns, call_panics, closes, close_panics, others_cancel, others_defer, others_defer_second,
  others_set_deferred, others_set_deferred_second, others_use_channels, KeepsFuncs, Run, here, next,
}

-- The goroutine has left its loop.
abbrev pub HasLeft : PairPhase → Type 0
HasLeft at_test = ⊥
HasLeft at_select = ⊥
HasLeft in_call = ⊥
HasLeft (at_close b) = Unit
HasLeft gone = Unit
HasLeft crashed = Unit

after_call-HasLeft : (p : PairPhase) → HasLeft p → HasLeft (after_call p)
after_call-HasLeft at_test h = absurd h
after_call-HasLeft at_select h = absurd h
after_call-HasLeft in_call h = absurd h
after_call-HasLeft (at_close b) h = tt
after_call-HasLeft gone h = tt
after_call-HasLeft crashed h = tt

defer_keeps_alive :
    {F T : Type 0} (f : List F) (s t : Superchan F T) (store : Store)
    → is_dead s ≡ false
    → defer f s store ≡ ok t
    → is_dead t ≡ false
unfolding is_dead
defer_keeps_alive f s t store alive d = elim (Option-cases s.deferfuncs) [
  | inl q ↦ absurd (ground arith)
  | inr (fs, q) ↦ rw (defer-eq-ok s store t f fs q d)
]

module _ {F T : Type 0} (panics : F → Bool) (cfg : Config) (parallel : Bool) (zero_value : T) where
  -- The events are those of a step in which the goroutine calls rundeferred on the first superchan,
  -- which was not dead before; the run consists of a part before this step and one behind it.
  abbrev pub CalledOnce : Pair F T → List (Event F) → Pair F T → Type 0
  CalledOnce r es s =
      (m : Pair F T) × (t : Superchan F T) × (fin : Finish) × Run panics cfg parallel zero_value r
        [] m
      × (m.phase ≡ at_select)
      × (either_done m.chctx m.chctx2 m.store ≡ true)
      × (is_dead m.chctx ≡ false)
      × Rundeferred panics cfg m.chctx es t fin
      × Run panics cfg parallel zero_value (record m { chctx = t; phase = at_close (is_panic fin) })
          [] s

  Step-HasLeft :
      {r s : Pair F T} {es : List (Event F)}
      → Step panics cfg parallel zero_value r es s
      → HasLeft r.phase
      → (es ≡ []) × HasLeft s.phase
  Step-HasLeft {r} (loop_ends p d) h = absurd (subst HasLeft p h)
  Step-HasLeft {r} (loop_goes_on p d) h = absurd (subst HasLeft p h)
  Step-HasLeft {r} (takes_done es t fin p d run) h = absurd (subst HasLeft p h)
  Step-HasLeft {r} (takes_input v c p g) h = absurd (subst HasLeft p h)
  Step-HasLeft {r} (call_refused xs v ys e d) h = (refl, after_call-HasLeft r.phase h)
  Step-HasLeft {r} (call_runs xs v ys e d) h = (refl, h)
  Step-HasLeft {r} (call_returns xs v began ys res t c e d st ch run) h =
      (refl, after_call-HasLeft r.phase h)
  Step-HasLeft {r} (call_panics xs v began ys res t c e d st ch run) h = (refl, tt)
  Step-HasLeft {r} (closes true p o o2) h = (refl, tt)
  Step-HasLeft {r} (closes false p o o2) h = (refl, tt)
  Step-HasLeft {r} (close_panics b p o) h = (refl, tt)
  Step-HasLeft {r} (others_cancel id e) h = (refl, h)
  Step-HasLeft {r} (others_defer f t d) h = (refl, h)
  Step-HasLeft {r} (others_defer_second f t d) h = (refl, h)
  Step-HasLeft {r} (others_set_deferred fs) h = (refl, h)
  Step-HasLeft {r} (others_set_deferred_second fs) h = (refl, h)
  Step-HasLeft {r} (others_use_channels c d) h = (refl, h)

  Run-HasLeft :
      {r s : Pair F T} {es : List (Event F)}
      → Run panics cfg parallel zero_value r es s
      → HasLeft r.phase
      → (es ≡ []) × HasLeft s.phase
  Run-HasLeft here h = (refl, h)
  Run-HasLeft (next st _ rest) h =
      let (e1, h1) = Step-HasLeft st h in let (e2, h2) = Run-HasLeft rest h1 in (rw (e1, e2), h2)

  no_events :
      {r s : Pair F T} {es : List (Event F)}
      → Run panics cfg parallel zero_value r es s
      → es ≡ []
      → Run panics cfg parallel zero_value r [] s
  no_events {r} {s} run quiet = subst (λ l. Run panics cfg parallel zero_value r l s) quiet run

  joins :
      {r s t : Pair F T} {es fs : List (Event F)}
      → Run panics cfg parallel zero_value r es s
      → Run panics cfg parallel zero_value s fs t
      → Run panics cfg parallel zero_value r (es ++ fs) t
  joins here later = later
  joins {r} {t = t} {fs = gs} (next {es = es} {fs = fs} st keeps rest) later =
      subst (λ l. Run panics cfg parallel zero_value r l t) (sym (append_assoc es fs gs))
        (next st keeps (joins rest later))

  -- No deferred function has been called, or all of the first superchan have, and the loop is left.
  abbrev OnceAtMost : Pair F T → List (Event F) → Pair F T → Type 0
  OnceAtMost r es s =
      ((es ≡ []) × (is_dead s.chctx ≡ false)) ⊎ (HasLeft s.phase × CalledOnce r es s)

  Step-OnceAtMost :
      {r s : Pair F T} {es : List (Event F)}
      → (step : Step panics cfg parallel zero_value r es s) → KeepsFuncs step
      → is_dead r.chctx ≡ false
      → OnceAtMost r es s
  unfolding is_dead
  Step-OnceAtMost {r} (loop_ends p d) keeps k = inl (refl, k)
  Step-OnceAtMost {r} (loop_goes_on p d) keeps k = inl (refl, k)
  Step-OnceAtMost {r} (takes_done es t fin p d run) keeps k =
      inr (tt, (r, t, fin, here, p, d, k, run, here))
  Step-OnceAtMost {r} (takes_input v c p g) keeps k = inl (refl, k)
  Step-OnceAtMost {r} (call_refused xs v ys e d) keeps k = inl (refl, k)
  Step-OnceAtMost {r} (call_runs xs v ys e d) keeps k = inl (refl, k)
  Step-OnceAtMost {r} (call_returns xs v began ys res t c e d st ch run) keeps k = inl (refl, k)
  Step-OnceAtMost {r} (call_panics xs v began ys res t c e d st ch run) keeps k = inl (refl, k)
  Step-OnceAtMost {r} (closes b p o o2) keeps k = inl (refl, k)
  Step-OnceAtMost {r} (close_panics b p o) keeps k = inl (refl, k)
  Step-OnceAtMost {r} (others_cancel id e) keeps k = inl (refl, k)
  Step-OnceAtMost {r} (others_defer f t d) keeps k =
      inl (refl, defer_keeps_alive f r.chctx t r.store k d)
  Step-OnceAtMost {r} (others_defer_second f t d) keeps k = inl (refl, k)
  Step-OnceAtMost {r} (others_set_deferred fs) keeps k =
      inl (refl, set_deferred_alive fs r.chctx keeps)
  Step-OnceAtMost {r} (others_set_deferred_second fs) keeps k = inl (refl, k)
  Step-OnceAtMost {r} (others_use_channels c d) keeps k = inl (refl, k)

  Run-OnceAtMost :
      {r s : Pair F T} {es : List (Event F)}
      → Run panics cfg parallel zero_value r es s
      → is_dead r.chctx ≡ false
      → OnceAtMost r es s
  Run-OnceAtMost here k = inl (refl, k)
  Run-OnceAtMost (next {r = r} {s = m} {t = t} {es = es} {fs = fs} st keeps rest) k =
      elim (Step-OnceAtMost st keeps k) [
        | inl (quiet, alive) ↦ elim (Run-OnceAtMost rest alive) [
          | inl (none_called, alive_then) ↦ inl (rw (quiet, none_called) refl, alive_then)
          | inr (left, (u, n, fin, before, p, d, live, run, behind)) ↦ inr (
            left,
            (
              u,
              n,
              fin,
              no_events (next st keeps before) (rw quiet refl),
              p,
              d,
              live,
              subst (λ gs. Rundeferred panics cfg u.chctx gs n fin) (ap (λ l. l ++ fs) (sym quiet))
                  run,
              behind,
            ),
          )
        ]
        | inr (left, (u, n, fin, before, p, d, live, run, behind)) ↦
            let (quiet, later) = Run-HasLeft rest left in
            inr (
              later,
              (
                u,
                n,
                fin,
                before,
                p,
                d,
                live,
                subst (λ gs. Rundeferred panics cfg u.chctx gs n fin)
                    (sym (append-nil es) ∙ ap (λ l. es ++ l) (sym quiet)) run,
                joins behind (no_events rest quiet),
              ),
            )
      ]

  Step-second_alive :
      {r s : Pair F T} {es : List (Event F)}
      → (step : Step panics cfg parallel zero_value r es s) → KeepsFuncs step
      → is_dead r.chctx2 ≡ false
      → is_dead s.chctx2 ≡ false
  unfolding is_dead
  Step-second_alive {r} (loop_ends p d) keeps k = k
  Step-second_alive {r} (loop_goes_on p d) keeps k = k
  Step-second_alive {r} (takes_done es t fin p d run) keeps k = k
  Step-second_alive {r} (takes_input v c p g) keeps k = k
  Step-second_alive {r} (call_refused xs v ys e d) keeps k = k
  Step-second_alive {r} (call_runs xs v ys e d) keeps k = k
  Step-second_alive {r} (call_returns xs v began ys res t c e d st ch run) keeps k = k
  Step-second_alive {r} (call_panics xs v began ys res t c e d st ch run) keeps k = k
  Step-second_alive {r} (closes b p o o2) keeps k = k
  Step-second_alive {r} (close_panics b p o) keeps k = k
  Step-second_alive {r} (others_cancel id e) keeps k = k
  Step-second_alive {r} (others_defer f t d) keeps k = k
  Step-second_alive {r} (others_defer_second f t d) keeps k =
      defer_keeps_alive f r.chctx2 t r.store k d
  Step-second_alive {r} (others_set_deferred fs) keeps k = k
  Step-second_alive {r} (others_set_deferred_second fs) keeps k =
      set_deferred_alive fs r.chctx2 keeps
  Step-second_alive {r} (others_use_channels c d) keeps k = k

  Run-second_alive :
      {r s : Pair F T} {es : List (Event F)}
      → Run panics cfg parallel zero_value r es s
      → is_dead r.chctx2 ≡ false
      → is_dead s.chctx2 ≡ false
  Run-second_alive here k = k
  Run-second_alive (next st keeps rest) k = Run-second_alive rest (Step-second_alive st keeps k)

  new_double_alive :
      (chanbufsize parent : ℕ) (store : Store) (r : Pair F T)
      → new_double chanbufsize (some parent) true store ≡ ok r
      → (is_dead r.chctx ≡ false) × (is_dead r.chctx2 ≡ false)
  unfolding new_double new_raw is_dead
  new_double_alive chanbufsize parent store r is = ground arith

  -- Whatever the goroutine of NewDouble, the calls of handledoublein and others do, but for calls of
  -- SetDeferred(nil), the deferred functions that have been called are none, or all those of one call
  -- of rundeferred on the first superchan: the goroutine made it in `select`, with a context done, the
  -- superchan was not dead then, no deferred function was called before or behind it, and the
  -- goroutine has left its loop. The deferred functions of the second superchan are never called: it
  -- never becomes dead.
  pub double_runs_deferred_once :
      (chanbufsize parent : ℕ) (store : Store) {r s : Pair F T} {es : List (Event F)}
      → new_double chanbufsize (some parent) true store ≡ ok r
      → Run panics cfg parallel zero_value r es s
      → (((es ≡ []) × (is_dead s.chctx ≡ false)) ⊎ (HasLeft s.phase × CalledOnce r es s))
        × (is_dead s.chctx2 ≡ false)
  double_runs_deferred_once chanbufsize parent store {r} is run =
      let (k, k2) = new_double_alive chanbufsize parent store r is in
      (Run-OnceAtMost run k, Run-second_alive run k2)
