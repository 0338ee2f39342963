-- ===== src/Superchan/Main/Ends.antt =====
-- When mainSignalHandler comes to its end.
use mostly.Common.{
  ℕ, ◌≡◌, ◌≢◌, ◌↔◌, ◌⊎◌, refl, inl, inr, List, [], ◌∷◌, ◌++◌, map, arith, Bool, false, none, some,
  Bool-cases, Option-cases, append_assoc, subst, ap, sym, ◌∙◌,
}
use mostly.Cancellable.Context.{Err, cause, cancel}
use mostly.Cancellable.Handle.{call_cancel}
use mostly.Cancellable.Chan.{Channel, receive, got}
use mostly.Cancellable.Chan.Laws.{closed-receive}
use mostly.Superchan.State.{Superchan, Config, is_dead, ctx, clear}
use mostly.Superchan.Rundeferred.{Finish, finished}
use mostly.Superchan.Rundeferred.Laws.{Rundeferred-finished}
use mostly.Superchan.Rundeferred.Ends.{IsQuiet, Rundeferred-some, Rundeferred-always}
use mostly.Superchan.Main.{
  MainEvent, deferred, cancelled, signal_stopped, chan_closed, World, put_back, closing,
  MainSignalHandler, context_done, cancel_then_deferred, deferred_then_cancel, deferred_panics,
}
use mostly.Superchan.Main.Laws.{cleared_facts}

module _ {F : Type 0} (panics : F → Bool) (cfg : Config) (make_signal_error : ℕ → Err)
    (zero_value : ℕ) where
  -- What `select` waits for: the context is done, or the channel has something to receive.
  abbrev pub IsWoken : World F → Type 0
  IsWoken w =
      ((e : Err) × (cause w.store (ctx w.chan) ≡ some e))
      ⊎ ((sig : ℕ) × (c : Channel ℕ) × (receive zero_value w.chan.chan.ch ≡ got sig c))

  woken_returns :
      (w : World F)
      → is_dead w.chan ≡ false
      → w.chan.chan.handle.cancel_func ≢ none
      → IsQuiet panics cfg
      → IsWoken w
      → (es : List (MainEvent F)) × (v : World F) × MainSignalHandler panics cfg make_signal_error
          zero_value w es v finished
  unfolding is_dead call_cancel clear
  woken_returns w alive own quiet (inl (e, done)) =
      let (es, run) = Rundeferred-some panics cfg w.chan alive quiet in
      (_, _, context_done es (clear w.chan) [] done run)
  woken_returns w alive own quiet (inr (sig, c, r)) =
      let (es, run) = Rundeferred-some panics cfg (put_back w.chan c) alive quiet in
      elim (Option-cases w.chan.chan.handle.cancel_func) [
        | inl nil ↦ absurd (own nil)
        | inr (id, has) ↦ elim (Bool-cases cfg.cancel_before_defer) [
          | inl before ↦ (
            _,
            _,
            cancel_then_deferred sig es (clear (put_back w.chan c))
                (cancel w.store id (some (make_signal_error sig))) [] before r (ground arith) run,
          )
          | inr behind ↦ (
            _,
            _,
            deferred_then_cancel sig es (clear (put_back w.chan c))
                (cancel w.store id (some (make_signal_error sig))) [] behind r run (ground arith),
          )
        ]
      ]

  run-IsWoken :
      {w v : World F} {es : List (MainEvent F)} {fin : Finish}
      → is_dead w.chan ≡ false
      → IsQuiet panics cfg
      → MainSignalHandler panics cfg make_signal_error zero_value w es v fin
      → IsWoken w × (fin ≡ finished)
  unfolding is_dead
  run-IsWoken alive quiet (context_done {e = e} es t others done run) =
      (inl (e, done), Rundeferred-always panics cfg alive quiet run)
  run-IsWoken alive quiet (cancel_then_deferred sig es t store {c = c} others b r call run) =
      (inr (sig, c, r), Rundeferred-always panics cfg alive quiet run)
  run-IsWoken alive quiet (deferred_then_cancel sig es t store {c = c} others b r run call) =
      (inr (sig, c, r), refl)
  run-IsWoken alive quiet (deferred_panics sig es t others b r run bad) =
      absurd (bad (Rundeferred-always panics cfg alive quiet run))

  closing_open :
      (s t u : Superchan F ℕ)
      → s.chan.ch.closed ≡ false
      → u.chan.ch.closed ≡ s.chan.ch.closed
      → t ≡ clear u
      → closing t ≡ signal_stopped ∷ chan_closed ∷ []
  closing_open s t u usable same is = (cleared_facts s t u is same).0 ∙ rw usable refl

  -- A run that returns ends with signal.Stop and a close that finds the channel open.
  run_closes :
      {w v : World F} {es : List (MainEvent F)}
      → w.chan.chan.ch.closed ≡ false
      → MainSignalHandler panics cfg make_signal_error zero_value w es v finished
      → (front : List (MainEvent F)) × (es ≡ front ++ signal_stopped ∷ chan_closed ∷ [])
  run_closes {w} usable (context_done es t others done run) = (
    map deferred es,
    ap (λ l. map deferred es ++ l)
        (closing_open w.chan t w.chan usable refl (Rundeferred-finished panics cfg run).1),
  )
  run_closes {w} usable (cancel_then_deferred sig es t store {c = c} others b r call run) = (
    cancelled (make_signal_error sig) ∷ map deferred es,
    ap (λ l. cancelled (make_signal_error sig) ∷ (map deferred es ++ l))
        (closing_open w.chan t (put_back w.chan c) usable (closed-receive zero_value _ r)
          (Rundeferred-finished panics cfg run).1),
  )
  run_closes {w} usable (deferred_then_cancel sig es t store {c = c} others b r run call) = (
    map deferred es ++ cancelled (make_signal_error sig) ∷ [],
    ap (λ l. map deferred es ++ cancelled (make_signal_error sig) ∷ l)
          (closing_open w.chan t (put_back w.chan c) usable (closed-receive zero_value _ r)
            (Rundeferred-finished panics cfg run).1)
        ∙ sym (
            append_assoc (map deferred es) (cancelled (make_signal_error sig) ∷ [])
              (signal_stopped ∷ chan_closed ∷ [])),
  )
  run_closes usable (deferred_panics sig es t others b r run bad) = absurd (bad refl)

  -- On a superchan that is not dead, has a cancel function and an open channel, with deferred
  -- functions in goroutines or none that panics, the signal handler returns exactly where the context
  -- is done or the channel has a signal, in either setting of CancelBeforeDefer; where neither holds
  -- it blocks. No run of it ends in a panic, and each ends with signal.Stop and the close of the
  -- channel.
  pub MainSignalHandler-returns :
      (w : World F)
      → is_dead w.chan ≡ false
      → w.chan.chan.handle.cancel_func ≢ none
      → w.chan.chan.ch.closed ≡ false
      → IsQuiet panics cfg
      → (((es : List (MainEvent F)) × (v : World F) × MainSignalHandler panics cfg make_signal_error
              zero_value w es v finished)
          ↔ IsWoken w)
        × ((v : World F) (es : List (MainEvent F)) (fin : Finish)
            → MainSignalHandler panics cfg make_signal_error zero_value w es v fin
            → (fin ≡ finished)
              × ((front : List (MainEvent F)) × (es ≡ front ++ signal_stopped ∷ chan_closed ∷ [])))
  MainSignalHandler-returns w alive own usable quiet = (
    (λ (es, v, run). (run-IsWoken alive quiet run).0, woken_returns w alive own quiet),
    λ v es fin run.
        let done = (run-IsWoken alive quiet run).1 in
        (
          done,
          run_closes usable
              (subst (MainSignalHandler panics cfg make_signal_error zero_value w es v) done run),
        ),
  )
