-- ===== src/Superchan/Main.antt =====
-- superchan/superchan.go: NewMain and mainSignalHandler. A signal is a number.
pub mod Laws
pub mod Ends
pub mod Kept
use mostly.Common.{
  ℕ, ◌≡◌, ◌≢◌, List, [], ◌∷◌, ◌++◌, map, Bool, true, false, Option, none, some, if◌then◌else◌,
}
use mostly.Cancellable.Context.{Err, Store, cause, cancel}
use mostly.Cancellable.Handle.{call_cancel}
use mostly.Cancellable.Chan.{Channel, receive, got}
use mostly.Superchan.State.{
  Superchan, Config, Outcome, ok, panic, no_signals_provided, new_raw, has_err, ctx,
}
use mostly.Superchan.Goroutines.{Event}
use mostly.Superchan.Rundeferred.{Rundeferred, Finish, finished}

-- What can be seen of the handler: events of deferred functions, its Cancel, signal.Stop and the
-- close of the channel, which panics where the channel is closed.
pub data MainEvent (F : Type 0) : Type 0 where
  deferred : Event F → MainEvent F
  cancelled : Err → MainEvent F
  signal_stopped chan_closed close_panicked : MainEvent F

pub record World (F : Type 0) : Type 0 where
  pub chan : Superchan F ℕ
  pub store : Store

-- Calls of cancel functions by other goroutines.
abbrev pub cancel_all : List (ℕ × Option Err) → Store → Store
cancel_all [] store = store
cancel_all ((id, e) ∷ calls) store = cancel_all calls (cancel store id e)

module _ {F : Type 0} where
  -- NewMain: the superchan and whether a handler was started for it.
  unfoldable pub new_main : ℕ → Option ℕ → List ℕ → Store → Outcome (World F × Bool)
  unfolding new_raw
  new_main chanbufsize parent [] store = panic no_signals_provided
  new_main chanbufsize parent (sig ∷ sigs) store =
      elim (new_raw {F = F} {T = ℕ} chanbufsize parent store) [
        | panic p ↦ panic p
        | ok (s, t) ↦
            let w : World F = record { chan = s; store = t } in
            if has_err s t then ok (w, false) else ok (w, true)
      ]

  abbrev pub set_ch : Superchan F ℕ → Bool → Superchan F ℕ
  set_ch s b = record s { chan = record s.chan { ch = record s.chan.ch { closed = b } } }

  -- The superchan with its channel as a receive has left it.
  abbrev pub put_back : Superchan F ℕ → Channel ℕ → Superchan F ℕ
  put_back s c = record s { chan = record s.chan { ch = c } }

  -- The deferred call with which the handler ends, also when it panics.
  abbrev pub closing : Superchan F ℕ → List (MainEvent F)
  closing s =
      if s.chan.ch.closed
      then signal_stopped ∷ close_panicked ∷ []
      else signal_stopped ∷ chan_closed ∷ []

  -- mainSignalHandler, with what others cancel while it runs. Where the context is done and a signal
  -- is there too, `select` may take either case.
  pub data MainSignalHandler (panics : F → Bool) (cfg : Config) (make_signal_error : ℕ → Err)
      (zero_value : ℕ) (w : World F) : List (MainEvent F) → World F → Finish → Type 0 where
    context_done :
        {e : Err} (es : List (Event F)) (t : Superchan F ℕ) {fin : Finish}
        (others : List (ℕ × Option Err))
        → cause w.store (ctx w.chan) ≡ some e
        → Rundeferred panics cfg w.chan es t fin
        → MainSignalHandler panics cfg make_signal_error zero_value w
            (map deferred es ++ closing t)
            (record { chan = set_ch t true; store = cancel_all others w.store })
            fin
    cancel_then_deferred :
        (sig : ℕ) (es : List (Event F)) (t : Superchan F ℕ) {fin : Finish} (store : Store)
        {c : Channel ℕ} (others : List (ℕ × Option Err))
        → cfg.cancel_before_defer ≡ true
        → receive zero_value w.chan.chan.ch ≡ got sig c
        → call_cancel w.chan.chan.handle (some (make_signal_error sig)) w.store ≡ some store
        → Rundeferred panics cfg (put_back w.chan c) es t fin
        → MainSignalHandler panics cfg make_signal_error zero_value w
            (cancelled (make_signal_error sig) ∷ map deferred es ++ closing t)
            (record { chan = set_ch t true; store = cancel_all others store })
            fin
    deferred_then_cancel :
        (sig : ℕ) (es : List (Event F)) (t : Superchan F ℕ) (store : Store) {c : Channel ℕ}
        (others : List (ℕ × Option Err))
        → cfg.cancel_before_defer ≡ false
        → receive zero_value w.chan.chan.ch ≡ got sig c
        → Rundeferred panics cfg (put_back w.chan c) es t finished
        → call_cancel t.chan.handle (some (make_signal_error sig)) (cancel_all others w.store)
          ≡ some store
        → MainSignalHandler panics cfg make_signal_error zero_value w
            (map deferred es ++ cancelled (make_signal_error sig) ∷ closing t)
            (record { chan = set_ch t true; store = store })
            finished
    deferred_panics :
        (sig : ℕ) (es : List (Event F)) (t : Superchan F ℕ) {fin : Finish} {c : Channel ℕ}
        (others : List (ℕ × Option Err))
        → cfg.cancel_before_defer ≡ false
        → receive zero_value w.chan.chan.ch ≡ got sig c
        → Rundeferred panics cfg (put_back w.chan c) es t fin
        → fin ≢ finished
        → MainSignalHandler panics cfg make_signal_error zero_value w
            (map deferred es ++ closing t)
            (record { chan = set_ch t true; store = cancel_all others w.store })
            fin

  -- The cancels by others in a run of the handler: before its own Cancel where that comes behind the
  -- deferred functions, and else at any time.
  abbrev pub others_of :
      {panics : F → Bool} {cfg : Config} {make_signal_error : ℕ → Err} {zero_value : ℕ}
      {w v : World F} {es : List (MainEvent F)} {fin : Finish}
      → MainSignalHandler panics cfg make_signal_error zero_value w es v fin
      → List (ℕ × Option Err)
  others_of (context_done es t others done run) = others
  others_of (cancel_then_deferred sig es t store others b r call run) = others
  others_of (deferred_then_cancel sig es t store others b r run call) = others
  others_of (deferred_panics sig es t others b r run bad) = others
