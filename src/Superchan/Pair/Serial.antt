-- ===== src/Superchan/Pair/Serial.antt =====
-- NewDouble without goroutines for its calls: one call at a time, and no panic.
use mostly.Common.{
  ℕ, suc, ◌+◌, ◌≡◌, ◌≢◌, ◌⊎◌, refl, ap, sym, ◌∙◌, subst, List, [], ◌∷◌, ◌++◌, length, arith, Bool,
  true, false, none, some,
}
use mostly.Cancellable.Context.{Store}
use mostly.Cancellable.Chan.{make_chan, new_chan}
use mostly.Cancellable.Chan.Laws.{closed-receive}
use mostly.Superchan.State.{Config, ok, is_dead, new_raw, set_deferred}
use mostly.Superchan.Goroutines.{Event}
use mostly.Superchan.Rundeferred.Ends.{IsQuiet, Rundeferred-always}
use mostly.Superchan.Reader.Flows.{Rundeferred-chan, defer-chan, set_deferred-ch}
use mostly.Superchan.Reader.Laws.{set_deferred_alive}
use mostly.Superchan.Double.{came_back}
use mostly.Superchan.Pair.{
  PairPhase, at_test, at_select, in_call, at_close, crashed, Pair, new_double, after_call, is_panic,
  Step, loop_ends, loop_goes_on, takes_done, takes_input, call_refused, call_runs, call_returns,
  call_panics, closes, close_panics, others_cancel, others_defer, others_defer_second,
  others_set_deferred, others_set_deferred_second, others_use_channels,
}
use mostly.Superchan.Pair.Phases.{
  Fits, busy, Fits-dead, length-middle, Handledoublein-closed, send_panicked-closed, defer_alive,
  Fits-count,
}

module _ {F : Type 0} {T : Type 0} (panics : F → Bool) (cfg : Config) (zero_value : T) where
  abbrev Moves : Pair F T → List (Event F) → Pair F T → Type 0
  Moves r es s = Step panics cfg false zero_value r es s

  abbrev pub IsSerial : Pair F T → Type 0
  IsSerial r =
      Fits r.phase (length r.handed + length r.running) (is_dead r.chctx) r.chctx.chan.ch.closed
        r.chctx2.chan.ch.closed

  -- Others do not close the channels and do not call SetDeferred(nil).
  abbrev pub LeavesOpen : {r s : Pair F T} {es : List (Event F)} → Moves r es s → Type 0
  LeavesOpen {r} (others_use_channels c d) =
      (c.closed ≡ r.chctx.chan.ch.closed) × (d.closed ≡ r.chctx2.chan.ch.closed)
  LeavesOpen (loop_ends p d) = Unit
  LeavesOpen (loop_goes_on p d) = Unit
  LeavesOpen (takes_done es t fin p d run) = Unit
  LeavesOpen (takes_input v c p g) = Unit
  LeavesOpen (call_refused xs v ys e d) = Unit
  LeavesOpen (call_runs xs v ys e d) = Unit
  LeavesOpen (call_returns xs v began ys res t c e d st ch h) = Unit
  LeavesOpen (call_panics xs v began ys res t c e d st ch h) = Unit
  LeavesOpen (closes b p x y) = Unit
  LeavesOpen (close_panics b p x) = Unit
  LeavesOpen (others_cancel id e) = Unit
  LeavesOpen (others_defer f t d) = Unit
  LeavesOpen (others_defer_second f t d) = Unit
  LeavesOpen (others_set_deferred fs) = fs ≢ none
  LeavesOpen (others_set_deferred_second fs) = fs ≢ none

  in_phase :
      (r : Pair F T) (ph : PairPhase)
      → r.phase ≡ ph
      → IsSerial r
      → Fits ph
          (length r.handed + length r.running)
          (is_dead r.chctx)
          r.chctx.chan.ch.closed
          r.chctx2.chan.ch.closed
  in_phase r ph is fits =
      subst
        (λ p.
          Fits p (length r.handed + length r.running) (is_dead r.chctx) r.chctx.chan.ch.closed
            r.chctx2.chan.ch.closed)
        is fits

  -- A call that has begun or is handed over.
  calling :
      (r : Pair F T) (k : ℕ)
      → length r.handed + length r.running ≡ suc k
      → IsSerial r
      → (r.phase ≡ in_call)
        × (k ≡ 0)
        × (is_dead r.chctx ≡ false)
        × (r.chctx.chan.ch.closed ≡ false)
        × (r.chctx2.chan.ch.closed ≡ false)
  calling r k count fits =
      busy r.phase k (is_dead r.chctx) r.chctx.chan.ch.closed r.chctx2.chan.ch.closed (
        subst (λ n. Fits r.phase n (is_dead r.chctx) r.chctx.chan.ch.closed r.chctx2.chan.ch.closed)
          count fits)

  handed_over :
      (r : Pair F T) (xs : List T) (v : T) (ys : List T)
      → r.handed ≡ xs ++ v ∷ ys
      → length r.handed + length r.running ≡ suc (length (xs ++ ys) + length r.running)
  handed_over r xs v ys e =
      ap (λ l. length l + length r.running) e ∙ omega (arith, length-middle xs v ys)

  Step-IsSerial :
      {r s : Pair F T} {es : List (Event F)} (step : Moves r es s)
      → IsQuiet panics cfg
      → LeavesOpen step
      → IsSerial r
      → IsSerial s
  unfolding is_dead
  Step-IsSerial {r} (loop_ends p d) quiet open_still fits =
      let (no_call, alive, a, b) = in_phase r at_test p fits in (no_call, refl, a, b)
  Step-IsSerial {r} (loop_goes_on p d) quiet open_still fits = in_phase r at_test p fits
  Step-IsSerial {r} (takes_done es t fin p d run) quiet open_still fits =
      let (no_call, alive, a, b) = in_phase r at_select p fits in
      let end = Rundeferred-always panics cfg alive quiet run in
      (no_call, ap is_panic end, ap (λ c. c.ch.closed) (Rundeferred-chan panics cfg run) ∙ a, b)
  Step-IsSerial {r} (takes_input v c p g) quiet open_still fits =
      let (no_call, alive, a, b) = in_phase r at_select p fits in
      (omega (arith, no_call), alive, closed-receive zero_value r.chctx.chan.ch g ∙ a, b)
  Step-IsSerial {r} (call_refused xs v ys e d) quiet open_still fits =
      let (waits, alone, alive, a, b) =
        calling r (length (xs ++ ys) + length r.running) (handed_over r xs v ys e) fits in
      subst
        (λ ph.
          Fits (after_call ph) (length (xs ++ ys) + length r.running) (is_dead r.chctx)
            r.chctx.chan.ch.closed r.chctx2.chan.ch.closed)
        (sym waits) (alone, alive, a, b)
  Step-IsSerial {r} (call_runs xs v ys e d) quiet open_still fits =
      let (waits, alone, alive, a, b) =
        calling r (length (xs ++ ys) + length r.running) (handed_over r xs v ys e) fits in
      subst
        (λ ph.
          Fits ph (length (xs ++ ys) + suc (length r.running)) (is_dead r.chctx)
            r.chctx.chan.ch.closed r.chctx2.chan.ch.closed)
        (sym waits) (omega (arith, alone), alive, a, b)
  Step-IsSerial {r} (call_returns xs v began ys res t c e d st ch h) quiet open_still fits =
      let (waits, alone, alive, a, b) =
        calling r (length r.handed + length (xs ++ ys))
          (ap (λ l. length r.handed + length l) e ∙ omega (arith, length-middle xs (v, began) ys))
          fits in
      subst
        (λ ph.
          Fits (after_call ph) (length r.handed + length (xs ++ ys)) (is_dead r.chctx)
            r.chctx.chan.ch.closed c.closed)
        (sym waits)
        (alone, alive, a, Handledoublein-closed res r.chctx r.chctx2 v began t c came_back ch h ∙ b)
  Step-IsSerial {r} (call_panics xs v began ys res t c e d st ch h) quiet open_still fits =
      let (waits, alone, alive, a, b) =
        calling r (length r.handed + length (xs ++ ys))
          (ap (λ l. length r.handed + length l) e ∙ omega (arith, length-middle xs (v, began) ys))
          fits in
      let shut = send_panicked-closed res r.chctx r.chctx2 v began t c h in
      let usable = ap (λ x. x.closed) ch ∙ b in absurd (ground arith)
  Step-IsSerial {r} (closes after_panic p x y) quiet open_still fits =
      let (no_call, fine, a, b) = in_phase r (at_close after_panic) p fits in rw fine no_call
  Step-IsSerial {r} (close_panics after_panic p x) quiet open_still fits =
      let (no_call, fine, a, b) = in_phase r (at_close after_panic) p fits in absurd (ground arith)
  Step-IsSerial {r} (others_cancel id e) quiet open_still fits = fits
  Step-IsSerial {r} (others_defer f t d) quiet open_still fits =
      Fits-dead r.phase (length r.handed + length r.running) (is_dead r.chctx) (is_dead t)
        t.chan.ch.closed r.chctx2.chan.ch.closed (λ alive. defer_alive f r.chctx t r.store alive d)
        (subst
          (λ x.
            Fits r.phase (length r.handed + length r.running) (is_dead r.chctx) x
              r.chctx2.chan.ch.closed)
          (ap (λ x. x.ch.closed) (sym (defer-chan f r.chctx t r.store d))) fits)
  Step-IsSerial {r} (others_defer_second f t d) quiet open_still fits =
      subst
        (λ x.
          Fits r.phase (length r.handed + length r.running) (is_dead r.chctx) r.chctx.chan.ch.closed
            x)
        (ap (λ x. x.ch.closed) (sym (defer-chan f r.chctx2 t r.store d))) fits
  Step-IsSerial {r} (others_set_deferred fs) quiet keeps fits =
      Fits-dead r.phase (length r.handed + length r.running) (is_dead r.chctx)
        (is_dead (set_deferred fs r.chctx)) (set_deferred fs r.chctx).chan.ch.closed
        r.chctx2.chan.ch.closed (λ alive. set_deferred_alive fs r.chctx keeps)
        (subst
          (λ x.
            Fits r.phase (length r.handed + length r.running) (is_dead r.chctx) x
              r.chctx2.chan.ch.closed)
          (ap (λ x. x.closed) (sym (set_deferred-ch fs r.chctx))) fits)
  Step-IsSerial {r} (others_set_deferred_second fs) quiet keeps fits =
      subst
        (λ x.
          Fits r.phase (length r.handed + length r.running) (is_dead r.chctx) r.chctx.chan.ch.closed
            x)
        (ap (λ x. x.closed) (sym (set_deferred-ch fs r.chctx2))) fits
  Step-IsSerial {r} (others_use_channels c d) quiet (first, second) fits =
      subst (λ x. Fits r.phase (length r.handed + length r.running) (is_dead r.chctx) x d.closed)
        (sym first)
        (subst
          (λ x.
            Fits r.phase (length r.handed + length r.running) (is_dead r.chctx)
              r.chctx.chan.ch.closed x)
          (sym second) fits)

  -- A run among others that leave the channels open and do not call SetDeferred(nil).
  pub data SerialRun (r : Pair F T) : Pair F T → Type 0 where
    at_start : SerialRun r r
    and_then :
        {s t : Pair F T} {es : List (Event F)}
        → SerialRun r s
        → (step : Moves s es t) → LeavesOpen step
        → SerialRun r t

  SerialRun-IsSerial :
      {r s : Pair F T} → IsQuiet panics cfg → SerialRun r s → IsSerial r → IsSerial s
  SerialRun-IsSerial quiet at_start fits = fits
  SerialRun-IsSerial quiet (and_then before step open_still) fits =
      Step-IsSerial step quiet open_still (SerialRun-IsSerial quiet before fits)

  new_double-IsSerial :
      (chanbufsize parent : ℕ) (store : Store) (r : Pair F T)
      → new_double chanbufsize (some parent) true store ≡ ok r
      → IsSerial r
  unfolding new_double new_raw new_chan make_chan is_dead
  new_double-IsSerial chanbufsize parent store r is =
      let begins : r.phase ≡ at_test = ground arith in
      let nothing_handed : r.handed ≡ [] = ground arith in
      let nothing_runs : r.running ≡ [] = ground arith in
      subst
        (λ ph.
          Fits ph (length r.handed + length r.running) (is_dead r.chctx) r.chctx.chan.ch.closed
            r.chctx2.chan.ch.closed)
        (sym begins)
        (rw (nothing_handed, nothing_runs) refl, ground arith, ground arith, ground arith)

  -- NewDouble with a handler runs its calls one at a time where they have no goroutine of their own, where
  -- deferred functions run in goroutines or none panics, and where others do what they like but for
  -- closing its two channels and for calls of SetDeferred(nil). At every moment there is one call, handed over or running, if the
  -- goroutine waits for it, and none otherwise; and the goroutine never panics, neither in the send to
  -- the second channel nor in its own close of both.
  pub one_at_a_time :
      (chanbufsize parent : ℕ) (store : Store) (r s : Pair F T)
      → new_double chanbufsize (some parent) true store ≡ ok r
      → IsQuiet panics cfg
      → SerialRun r s
      → (s.phase ≢ crashed)
        × (((s.phase ≡ in_call) × (length s.handed + length s.running ≡ 1))
            ⊎ (length s.handed + length s.running ≡ 0))
  one_at_a_time chanbufsize parent store r s made quiet run =
      Fits-count s.phase (length s.handed + length s.running) (is_dead s.chctx)
        s.chctx.chan.ch.closed s.chctx2.chan.ch.closed
        (SerialRun-IsSerial quiet run (new_double-IsSerial chanbufsize parent store r made))
