-- ===== src/Superchan/Reader.antt =====
-- superchan/superchan.go: New and the goroutine that it starts, as a machine that other goroutines
-- act on between its steps.
pub mod Laws
pub mod Ends
pub mod Errors
pub mod Flows
pub mod Failures
pub mod Inputs
use mostly.Common.{
  ℕ, ◌≡◌, ◌≢◌, ◌⊎◌, List, [], ◌∷◌, ◌++◌, Bool, true, false, Option, none, some, if◌then◌else◌,
}
use mostly.Cancellable.Context.{Err, Store, cancel, is_done}
use mostly.Cancellable.Handle.{call_cancel}
use mostly.Cancellable.Chan.{Channel, receive, got}
use mostly.Superchan.State.{
  Superchan, Config, Outcome, ok, panic, no_handler_provided, new_raw, has_err, defer, set_deferred,
}
use mostly.Superchan.Goroutines.{Event}
use mostly.Superchan.Rundeferred.{Rundeferred, Finish, finished}

-- Where the goroutine is: at the test of the loop, in `select`, behind the loop, or gone by a panic
-- that nothing recovers.
pub data Phase : Type 0 where
  at_test at_select ended crashed : Phase

-- `in_flight` are the inputs whose handler runs in a goroutine of its own.
pub record Reader (F : Type 0) (T : Type 0) : Type 0 where
  pub chan : Superchan F T
  pub store : Store
  pub phase : Phase
  pub in_flight : List T

module _ {F : Type 0} {T : Type 0} where
  -- New; `handler` is `none` where it is nil.
  unfoldable pub new : ℕ → Option ℕ → Option (T → Option Err) → Store → Outcome (Reader F T)
  unfolding new_raw
  new chanbufsize parent none store = panic no_handler_provided
  new chanbufsize parent (some handler) store =
      elim (new_raw {F = F} {T = T} chanbufsize parent store) [
        | panic p ↦ panic p
        | ok (s, t) ↦ ok (record { chan = s; store = t; phase = at_test; in_flight = [] })
      ]

  abbrev pub with_ch : Superchan F T → Channel T → Superchan F T
  with_ch s c = record s { chan = record s.chan { ch = c } }

  -- `if err := handler(chctx, in); err != nil { chctx.Cancel(err) }`; `none` is the panic of Cancel.
  unfoldable pub handle_input : (T → Option Err) → T → Superchan F T → Store → Option Store
  handle_input handler v s store = elim (handler v) [
    | none ↦ some store
    | some e ↦ call_cancel s.chan.handle (some e) store
  ]

-- One step of the goroutine, of a handler, or of others, with the events of deferred functions. What
-- the handler returns for an input is a function of the input.
pub data Step {F : Type 0} {T : Type 0} (panics : F → Bool) (cfg : Config)
    (handler : T → Option Err) (parallel : Bool) (zero_value : T) (r : Reader F T)
    : List (Event F) → Reader F T → Type 0 where
  loop_ends :
      r.phase ≡ at_test
      → has_err r.chan r.store ≡ true
      → Step panics cfg handler parallel zero_value r [] (record r { phase = ended })
  loop_goes_on :
      r.phase ≡ at_test
      → has_err r.chan r.store ≡ false
      → Step panics cfg handler parallel zero_value r [] (record r { phase = at_select })
  takes_done :
      (es : List (Event F)) (t : Superchan F T)
      → r.phase ≡ at_select
      → has_err r.chan r.store ≡ true
      → Rundeferred panics cfg r.chan es t finished
      → Step panics cfg handler parallel zero_value r es (record r { chan = t; phase = at_test })
  done_panics :
      (es : List (Event F)) (t : Superchan F T) (fin : Finish)
      → r.phase ≡ at_select
      → has_err r.chan r.store ≡ true
      → Rundeferred panics cfg r.chan es t fin
      → fin ≢ finished
      → Step panics cfg handler parallel zero_value r es (record r { chan = t; phase = crashed })
  takes_input :
      (v : T) (c : Channel T) (store : Store)
      → r.phase ≡ at_select
      → parallel ≡ false
      → receive zero_value r.chan.chan.ch ≡ got v c
      → handle_input handler v r.chan r.store ≡ some store
      → Step panics cfg handler parallel zero_value r []
          (record r { chan = with_ch r.chan c; store = store; phase = at_test })
  hands_over_input :
      (v : T) (c : Channel T)
      → r.phase ≡ at_select
      → parallel ≡ true
      → receive zero_value r.chan.chan.ch ≡ got v c
      → Step panics cfg handler parallel zero_value r []
          (record r { chan = with_ch r.chan c; phase = at_test; in_flight = v ∷ r.in_flight })
  handler_returns :
      (xs : List T) (v : T) (ys : List T) (store : Store)
      → r.in_flight ≡ xs ++ v ∷ ys
      → handle_input handler v r.chan r.store ≡ some store
      → Step panics cfg handler parallel zero_value r []
          (record r { store = store; in_flight = xs ++ ys })
  others_cancel :
      (id : ℕ) (e : Option Err)
      → Step panics cfg handler parallel zero_value r [] (record r { store = cancel r.store id e })
  others_defer :
      (f : List F) (t : Superchan F T)
      → defer f r.chan r.store ≡ ok t
      → Step panics cfg handler parallel zero_value r [] (record r { chan = t })
  others_set_deferred :
      (fs : Option (List F))
      → Step panics cfg handler parallel zero_value r []
          (record r { chan = set_deferred fs r.chan })
  others_use_channel :
      (c : Channel T)
      → Step panics cfg handler parallel zero_value r [] (record r { chan = with_ch r.chan c })

-- Others do not call SetDeferred(nil), which makes a superchan dead.
abbrev pub KeepsFuncs :
    {F T : Type 0} {panics : F → Bool} {cfg : Config} {handler : T → Option Err} {parallel : Bool}
    {zero_value : T} {r s : Reader F T} {es : List (Event F)}
    → Step panics cfg handler parallel zero_value r es s
    → Type 0
KeepsFuncs (others_set_deferred fs) = fs ≢ none
KeepsFuncs step = Unit

-- A run in which others do not call SetDeferred(nil), with all its events.
pub data Run {F : Type 0} {T : Type 0} (panics : F → Bool) (cfg : Config) (handler : T → Option Err)
    (parallel : Bool) (zero_value : T) : Reader F T → List (Event F) → Reader F T → Type 0 where
  here : {r : Reader F T} → Run panics cfg handler parallel zero_value r [] r
  next :
      {r s t : Reader F T} {es fs : List (Event F)}
      → (step : Step panics cfg handler parallel zero_value r es s) → KeepsFuncs step
      → Run panics cfg handler parallel zero_value s fs t
      → Run panics cfg handler parallel zero_value r (es ++ fs) t
