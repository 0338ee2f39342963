-- ===== src/Superchan/Pair.antt =====
-- superchan/superchan.go: NewDouble and its goroutine, with the calls of handledoublein that it makes,
-- as a machine that other goroutines act on between its steps.
pub mod Laws
pub mod Errors
pub mod Phases
pub mod Serial
use mostly.Common.{
  ℕ, ◌≡◌, ◌≢◌, List, [], ◌∷◌, ◌++◌, Bool, true, false, ◌||◌, Option, none, some, if◌then◌else◌,
}
use mostly.Cancellable.Context.{Err, Store, cancel}
use mostly.Cancellable.Chan.{Channel, receive, got}
use mostly.Superchan.State.{
  Superchan, Config, Outcome, ok, panic, no_handler_provided, new_raw, has_err, ctx, defer,
  set_deferred,
}
use mostly.Superchan.Goroutines.{Event}
use mostly.Superchan.Rundeferred.{Rundeferred, Finish, finished, called_twice, func_panicked}
use mostly.Superchan.Reader.{with_ch}
use mostly.Superchan.Double.{HandlerResult, came_back, send_panicked, either_done, Handledoublein}

-- Where the goroutine is: at the test of the loop, in `select`, in a call of handledoublein, at the
-- deferred close of both channels, with or without a panic behind it, or gone. A panic that nothing
-- recovers ends the program.
pub data PairPhase : Type 0 where
  at_test at_select in_call : PairPhase
  at_close : Bool → PairPhase
  gone crashed : PairPhase

pub record Pair (F : Type 0) (T : Type 0) : Type 0 where
  pub chctx : Superchan F T
  pub chctx2 : Superchan F T
  pub store : Store
  pub phase : PairPhase
  -- Inputs whose call has not begun.
  pub handed : List T
  -- Inputs whose handler runs, with the contexts as the call found them.
  pub running : List (T × Store)

module _ {F : Type 0} {T : Type 0} where
  -- NewDouble, where `has_handler` is `handler != nil`.
  unfoldable pub new_double : ℕ → Option ℕ → Bool → Store → Outcome (Pair F T)
  unfolding new_raw
  new_double chanbufsize parent false store = panic no_handler_provided
  new_double chanbufsize parent true store =
      elim (new_raw {F = F} {T = T} chanbufsize parent store) [
        | panic p ↦ panic p
        | ok (s, t) ↦ elim (new_raw {F = F} {T = T} chanbufsize (some (ctx s)) t) [
          | panic p ↦ panic p
          | ok (s2, t2) ↦ ok (record {
            chctx = s;
            chctx2 = s2;
            store = t2;
            phase = at_test;
            handed = [];
            running = [];
          })
        ]
      ]

  abbrev pub closed_ch : Superchan F T → Superchan F T
  closed_ch s = with_ch s (record s.chan.ch { closed = true })

-- A call that the goroutine waits for brings it back to the test.
abbrev pub after_call : PairPhase → PairPhase
after_call at_test = at_test
after_call at_select = at_select
after_call in_call = at_test
after_call (at_close b) = at_close b
after_call gone = gone
after_call crashed = crashed

abbrev pub is_panic : Finish → Bool
is_panic finished = false
is_panic called_twice = true
is_panic func_panicked = true

-- One step of the goroutine, of a call, or of others, with the events of deferred functions.
pub data Step {F : Type 0} {T : Type 0} (panics : F → Bool) (cfg : Config) (parallel : Bool)
    (zero_value : T) (r : Pair F T) : List (Event F) → Pair F T → Type 0 where
  loop_ends :
      r.phase ≡ at_test
      → has_err r.chctx r.store ≡ true
      → Step panics cfg parallel zero_value r [] (record r { phase = at_close false })
  loop_goes_on :
      r.phase ≡ at_test
      → has_err r.chctx r.store ≡ false
      → Step panics cfg parallel zero_value r [] (record r { phase = at_select })
  takes_done :
      (es : List (Event F)) (t : Superchan F T) (fin : Finish)
      → r.phase ≡ at_select
      → either_done r.chctx r.chctx2 r.store ≡ true
      → Rundeferred panics cfg r.chctx es t fin
      → Step panics cfg parallel zero_value r es
          (record r { chctx = t; phase = at_close (is_panic fin) })
  takes_input :
      (v : T) (c : Channel T)
      → r.phase ≡ at_select
      → receive zero_value r.chctx.chan.ch ≡ got v c
      → Step panics cfg parallel zero_value r [] (record r {
        chctx = with_ch r.chctx c;
        phase = if parallel then at_test else in_call;
        handed = v ∷ r.handed;
      })
  call_refused :
      (xs : List T) (v : T) (ys : List T)
      → r.handed ≡ xs ++ v ∷ ys
      → either_done r.chctx r.chctx2 r.store ≡ true
      → Step panics cfg parallel zero_value r []
          (record r { handed = xs ++ ys; phase = after_call r.phase })
  call_runs :
      (xs : List T) (v : T) (ys : List T)
      → r.handed ≡ xs ++ v ∷ ys
      → either_done r.chctx r.chctx2 r.store ≡ false
      → Step panics cfg parallel zero_value r []
          (record r { handed = xs ++ ys; running = (v, r.store) ∷ r.running })
  call_returns :
      (xs : List (T × Store)) (v : T) (began : Store) (ys : List (T × Store))
      (res : HandlerResult T) (t : Store) (c : Channel T)
      → r.running ≡ xs ++ (v, began) ∷ ys
      → either_done r.chctx r.chctx2 began ≡ false
      → res.store ≡ r.store
      → res.ch ≡ r.chctx2.chan.ch
      → Handledoublein (λ _ _. res) r.chctx r.chctx2 v began t c came_back
      → Step panics cfg parallel zero_value r [] (record r {
        chctx2 = with_ch r.chctx2 c;
        store = t;
        running = xs ++ ys;
        phase = after_call r.phase;
      })
  call_panics :
      (xs : List (T × Store)) (v : T) (began : Store) (ys : List (T × Store))
      (res : HandlerResult T) (t : Store) (c : Channel T)
      → r.running ≡ xs ++ (v, began) ∷ ys
      → either_done r.chctx r.chctx2 began ≡ false
      → res.store ≡ r.store
      → res.ch ≡ r.chctx2.chan.ch
      → Handledoublein (λ _ _. res) r.chctx r.chctx2 v began t c send_panicked
      → Step panics cfg parallel zero_value r [] (record r { phase = crashed })
  closes :
      (after_panic : Bool)
      → r.phase ≡ at_close after_panic
      → r.chctx.chan.ch.closed ≡ false
      → r.chctx2.chan.ch.closed ≡ false
      → Step panics cfg parallel zero_value r [] (record r {
        chctx = closed_ch r.chctx;
        chctx2 = closed_ch r.chctx2;
        phase = if after_panic then crashed else gone;
      })
  close_panics :
      (after_panic : Bool)
      → r.phase ≡ at_close after_panic
      → (r.chctx.chan.ch.closed || r.chctx2.chan.ch.closed) ≡ true
      → Step panics cfg parallel zero_value r []
          (record r { chctx = closed_ch r.chctx; phase = crashed })
  others_cancel :
      (id : ℕ) (e : Option Err)
      → Step panics cfg parallel zero_value r [] (record r { store = cancel r.store id e })
  others_defer :
      (f : List F) (t : Superchan F T)
      → defer f r.chctx r.store ≡ ok t
      → Step panics cfg parallel zero_value r [] (record r { chctx = t })
  others_defer_second :
      (f : List F) (t : Superchan F T)
      → defer f r.chctx2 r.store ≡ ok t
      → Step panics cfg parallel zero_value r [] (record r { chctx2 = t })
  others_set_deferred :
      (fs : Option (List F))
      → Step panics cfg parallel zero_value r [] (record r { chctx = set_deferred fs r.chctx })
  others_set_deferred_second :
      (fs : Option (List F))
      → Step panics cfg parallel zero_value r [] (record r { chctx2 = set_deferred fs r.chctx2 })
  others_use_channels :
      (c d : Channel T)
      → Step panics cfg parallel zero_value r []
          (record r { chctx = with_ch r.chctx c; chctx2 = with_ch r.chctx2 d })

-- Others do not call SetDeferred(nil) on either superchan, which makes it dead.
abbrev pub KeepsFuncs :
    {F T : Type 0} {panics : F → Bool} {cfg : Config} {parallel : Bool} {zero_value : T}
    {r s : Pair F T} {es : List (Event F)}
    → Step panics cfg parallel zero_value r es s
    → Type 0
KeepsFuncs (others_set_deferred fs) = fs ≢ none
KeepsFuncs (others_set_deferred_second fs) = fs ≢ none
KeepsFuncs step = Unit

-- A run in which others do not call SetDeferred(nil).
pub data Run {F : Type 0} {T : Type 0} (panics : F → Bool) (cfg : Config) (parallel : Bool)
    (zero_value : T) : Pair F T → List (Event F) → Pair F T → Type 0 where
  here : {r : Pair F T} → Run panics cfg parallel zero_value r [] r
  next :
      {r s t : Pair F T} {es fs : List (Event F)}
      → (step : Step panics cfg parallel zero_value r es s) → KeepsFuncs step
      → Run panics cfg parallel zero_value s fs t
      → Run panics cfg parallel zero_value r (es ++ fs) t
