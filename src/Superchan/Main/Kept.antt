-- ===== src/Superchan/Main/Kept.antt =====
-- What the signal handler keeps, and that its context is done behind it.
use mostly.Common.{
  Option, arith, [], ◌∷◌, none, ◌<◌, ℕ, ◌≡◌, refl, ap, ◌∙◌, inl, inr, List, Bool, true, some,
  length,
}
use mostly.Cancellable.Context.{Err, Store, cause, is_done}
use mostly.Cancellable.Context.Laws.{length-cancel}
use mostly.Superchan.State.{Superchan, Config, ctx, has_err, clear}
use mostly.Superchan.Rundeferred.{finished}
use mostly.Superchan.Rundeferred.Laws.{Rundeferred-finished}
use mostly.Superchan.Main as Main
use mostly.Cancellable.Handle.{new_from}
use mostly.Cancellable.Chan.{make_chan}
use mostly.Superchan.State.{ok}
use mostly.Superchan.Main.{
  new_main, MainEvent, cancel_all, put_back, set_ch, MainSignalHandler, context_done,
  cancel_then_deferred, deferred_then_cancel, deferred_panics,
}
use mostly.Superchan.Main.Laws.{length-cancel_all, call_cancel-own}
use mostly.Superchan.Main.Laws.{Order}
use mostly.Superchan.Goroutines.{Event}

-- What NewMain makes: its own cancel function, and no deferred function.
pub new_main-own :
    {F : Type 0} (chanbufsize parent : ℕ) (signals : List ℕ) (store : Store) (m : Main.World F)
    (started : Bool)
    → new_main chanbufsize (some parent) signals store ≡ ok (m, started)
    → (m.chan.chan.handle.cancel_func ≡ some (ctx m.chan))
      × (ctx m.chan < length m.store)
      × (m.chan.deferfirst ≡ none)
      × (m.chan.deferlast ≡ none)
      × (m.chan.deferfuncs ≡ some [])
unfolding new_main new_from make_chan
new_main-own chanbufsize parent [] store m started e = absurd (ground arith)
new_main-own chanbufsize parent (sig ∷ sigs) store m started e = ground arith

module _ {F : Type 0} (panics : F → Bool) (cfg : Config) (make_signal_error : ℕ → Err)
    (zero_value : ℕ) where
  -- The handler keeps the superchan's context and its cancel function, and makes no context.
  pub handler_keeps :
      {w v : Main.World F} {es : List (MainEvent F)}
      → w.chan.chan.handle.cancel_func ≡ some (ctx w.chan)
      → MainSignalHandler panics cfg make_signal_error zero_value w es v finished
      → (v.chan.chan.handle ≡ w.chan.chan.handle) × (length v.store ≡ length w.store)
  unfolding clear
  handler_keeps {w} own (context_done es t others done run) =
      let (_, cleared, _, _) = Rundeferred-finished panics cfg run in
      (ap (λ (s : Superchan F ℕ). s.chan.handle) cleared, length-cancel_all others w.store)
  handler_keeps {w} own (cancel_then_deferred sig es t store others b r call run) =
      let (_, cleared, _, _) = Rundeferred-finished panics cfg run in
      (
        ap (λ (s : Superchan F ℕ). s.chan.handle) cleared,
        length-cancel_all others store
            ∙ ap length (call_cancel-own w.chan.chan.handle _ w.store store (ctx w.chan) own call)
            ∙ length-cancel w.store (ctx w.chan) _,
      )
  handler_keeps {w} own (deferred_then_cancel sig es t store others b r run call) =
      let (_, cleared, _, _) = Rundeferred-finished panics cfg run in
      let handle = ap (λ (s : Superchan F ℕ). s.chan.handle) cleared in
      (
        handle,
        ap length (
              call_cancel-own t.chan.handle _ (cancel_all others w.store) store (ctx w.chan)
                (ap (λ h. h.cancel_func) handle ∙ own) call)
            ∙ length-cancel (cancel_all others w.store) (ctx w.chan) _
            ∙ length-cancel_all others w.store,
      )
  handler_keeps own (deferred_panics sig es t others b r run bad) = absurd (bad refl)

  -- The context is done when the handler has returned.
  pub Order-has_err :
      (w v : Main.World F) (others : List (ℕ × Option Err)) (fs : List (Event F))
      (es : List (MainEvent F))
      → Order panics cfg make_signal_error zero_value w others fs es v.store
      → v.chan.chan.handle ≡ w.chan.chan.handle
      → has_err v.chan v.store ≡ true
  Order-has_err w v others fs es (inl (c, _, done, _)) same =
      ap (λ h. is_done (cause v.store h.context)) same ∙ ap is_done done
  Order-has_err w v others fs es (inr (inl (sig, _, _, _, done, _))) same =
      ap (λ h. is_done (cause v.store h.context)) same ∙ ap is_done done
  Order-has_err w v others fs es (inr (inr (sig, _, _, _, done, _))) same =
      ap (λ h. is_done (cause v.store h.context)) same ∙ ap is_done done
