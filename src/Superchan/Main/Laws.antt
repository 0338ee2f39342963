-- ===== src/Superchan/Main/Laws.antt =====
-- What mainSignalHandler has done when it returns, and what NewMain starts.
use mostly.Common.{
  ℕ, suc, not, ◌<◌, ◌≡◌, refl, ap, ◌∙◌, ◌⊎◌, inl, inr, List, [], ◌∷◌, ◌++◌, map, arith, Bool, true,
  false, Option, none, some, length,
}
use mostly.Cancellable.Context.{Err, Store, cause, cancel, is_done, get_or}
use mostly.Cancellable.Context.Laws.{
  cause-cancel_done, cause-cancel_self, cause-fresh, length-cancel,
}
use mostly.Cancellable.Handle.{Cancellable, new_from, call_cancel}
use mostly.Cancellable.Chan.{Channel, receive, got, make_chan}
use mostly.Cancellable.Chan.Laws.{closed-receive}
use mostly.Superchan.State.{
  Superchan, Config, ok, panic, no_signals_provided, groups, is_dead, ctx, clear,
}
use mostly.Superchan.Goroutines.{Event}
use mostly.Superchan.Goroutines.Barriers.{Stretches}
use mostly.Superchan.Rundeferred.{finished}
use mostly.Superchan.Rundeferred.Laws.{Rundeferred-finished, InOrder, Rundeferred-InOrder}
use mostly.Superchan.Main.{
  MainEvent, deferred, cancelled, World, cancel_all, put_back, new_main, closing, set_ch, others_of,
  MainSignalHandler, context_done, cancel_then_deferred, deferred_then_cancel, deferred_panics,
}

pub length-cancel_all :
    (calls : List (ℕ × Option Err)) (store : Store) → length (cancel_all calls store) ≡ length store
length-cancel_all [] store = refl
length-cancel_all ((id, e) ∷ calls) store =
    length-cancel_all calls (cancel store id e) ∙ length-cancel store id e

-- A context that is done keeps its cause whatever is cancelled.
pub cause-cancel_all :
    (calls : List (ℕ × Option Err)) (store : Store) (id : ℕ) (c : Err)
    → cause store id ≡ some c
    → cause (cancel_all calls store) id ≡ some c
cause-cancel_all [] store id c h = h
cause-cancel_all ((i, e) ∷ calls) store id c h =
    cause-cancel_all calls (cancel store i e) id c (cause-cancel_done store i e id h)

pub call_cancel-own :
    (h : Cancellable) (e : Option Err) (store after : Store) (id : ℕ)
    → h.cancel_func ≡ some id
    → call_cancel h e store ≡ some after
    → after ≡ cancel store id e
unfolding call_cancel
call_cancel-own h e store after id own call = ground arith

-- The channel is as open as it was, and the superchan stays dead when its channel is closed.
pub cleared_facts :
    {F : Type 0} (s t u : Superchan F ℕ)
    → t ≡ clear u
    → u.chan.ch.closed ≡ s.chan.ch.closed
    → (closing t ≡ closing s) × (is_dead (set_ch t true) ≡ true)
unfolding clear is_dead
cleared_facts s t u e h = (ground arith, ground arith)

module _ {F : Type 0} (panics : F → Bool) (cfg : Config) (make_signal_error : ℕ → Err)
    (zero_value : ℕ) where
  -- The order of the events, with the cause that the context has in the end. A signal is the one that
  -- the handler receives, and `others` is what others have cancelled.
  abbrev pub Order :
      World F → List (ℕ × Option Err) → List (Event F) → List (MainEvent F) → Store → Type 0
  Order w others fs es store =
      ((c : Err) × (cause w.store (ctx w.chan) ≡ some c)
        × (cause store (ctx w.chan) ≡ some c)
        × (es ≡ map deferred fs ++ closing w.chan))
      ⊎ ((sig : ℕ) × (left : Channel ℕ) × (receive zero_value w.chan.chan.ch ≡ got sig left)
          × (cfg.cancel_before_defer ≡ true)
          × (cause store (ctx w.chan)
              ≡ some (get_or (cause w.store (ctx w.chan)) (make_signal_error sig)))
          × (es ≡ cancelled (make_signal_error sig) ∷ (map deferred fs ++ closing w.chan)))
      ⊎ ((sig : ℕ) × (left : Channel ℕ) × (receive zero_value w.chan.chan.ch ≡ got sig left)
          × (cfg.cancel_before_defer ≡ false)
          × (cause store (ctx w.chan)
              ≡ some
                  (get_or (cause (cancel_all others w.store) (ctx w.chan)) (make_signal_error sig)))
          × (es ≡ map deferred fs ++ cancelled (make_signal_error sig) ∷ closing w.chan))

  -- When the signal handler returns, every deferred function has run once, in its group, and without
  -- goroutines the functions of a group one after another in the order in which they stand; the
  -- superchan is dead and its channel is closed, and its context is done for good. If the context
  -- was done before, the handler has cancelled nothing. If it was a signal, the handler has received
  -- it from the channel and called Cancel with that signal's error, before the deferred functions or
  -- behind them as CancelBeforeDefer says, and the context's cause is that error unless it was done
  -- before the call, by what others have cancelled in this run. The superchan's cancel function is
  -- that of its own context.
  pub MainSignalHandler-finished :
      {w v : World F} {es : List (MainEvent F)}
      → w.chan.chan.handle.cancel_func ≡ some (ctx w.chan)
      → ctx w.chan < length w.store
      → (run : MainSignalHandler panics cfg make_signal_error zero_value w es v finished)
      → (fs : List (Event F)) × Stretches panics (groups w.chan) fs
        × InOrder panics cfg w.chan fs
        × Order w (others_of run) fs es v.store
        × (is_dead v.chan ≡ true)
        × (v.chan.chan.ch.closed ≡ true)
  unfolding is_dead
  MainSignalHandler-finished {w} own there (context_done {e = c} es t others done run) =
      let (st, cleared, _, _) = Rundeferred-finished panics cfg run in
      let (same, dead) = cleared_facts w.chan t w.chan cleared refl in
      (
        es,
        st,
        Rundeferred-InOrder panics cfg run,
        inl (c, done, cause-cancel_all others w.store _ c done, ap (◌++◌ (map deferred es)) same),
        dead,
        refl,
      )
  MainSignalHandler-finished {w} own there
        (cancel_then_deferred sig es t store {c = ch} others b r call run) =
      let (st, cleared, _, _) = Rundeferred-finished panics cfg run in
      let (same, dead) =
        cleared_facts w.chan t (put_back w.chan ch) cleared (closed-receive zero_value _ r) in
      let own_call = call_cancel-own w.chan.chan.handle _ w.store store (ctx w.chan) own call in
      (
        es,
        st,
        Rundeferred-InOrder panics cfg run,
        inr (
            inl (
              sig,
              ch,
              r,
              b,
              cause-cancel_all others store (ctx w.chan) _ (
                  ap (λ s. cause s (ctx w.chan)) own_call
                  ∙ cause-cancel_self w.store (ctx w.chan) _ there),
              ap (λ l. cancelled (make_signal_error sig) ∷ (map deferred es ++ l)) same,
            )),
        dead,
        refl,
      )
  MainSignalHandler-finished {w} own there
        (deferred_then_cancel sig es t store {c = ch} others b r run call) =
      let (st, cleared, _, _) = Rundeferred-finished panics cfg run in
      let (same, dead) =
        cleared_facts w.chan t (put_back w.chan ch) cleared (closed-receive zero_value _ r) in
      let own_call =
        call_cancel-own t.chan.handle _ (cancel_all others w.store) store (ctx w.chan)
          (unfold clear in (ap (λ (s : Superchan F ℕ). s.chan.handle.cancel_func) cleared ∙ own))
          call in
      (
        es,
        st,
        Rundeferred-InOrder panics cfg run,
        inr (
            inr (
              sig,
              ch,
              r,
              b,
              ap (λ s. cause s (ctx w.chan)) own_call
                  ∙ cause-cancel_self (cancel_all others w.store) (ctx w.chan) _
                      (omega (arith, length-cancel_all others w.store)),
              ap (λ l. map deferred es ++ cancelled (make_signal_error sig) ∷ l) same,
            )),
        dead,
        refl,
      )
  MainSignalHandler-finished own there (deferred_panics sig es t others b r run bad) =
      absurd (bad refl)

-- NewMain with a signal and a parent context makes a superchan with a fresh context of its own, which
-- its cancel function cancels, no deferred function, and an open and empty channel. A handler is
-- started exactly if the parent is not done; the new context is then not done, and otherwise it is
-- done with the parent's cause. With no signal it panics.
pub new_main_branches :
    (F : Type 0) (chanbufsize parent sig : ℕ) (sigs : List ℕ) (store : Store)
    → (new_main {F = F} chanbufsize (some parent) [] store ≡ panic no_signals_provided)
      × ((w : World F) × (started : Bool) × (new_main chanbufsize (some parent) (sig ∷ sigs) store
            ≡ ok (w, started))
          × (started ≡ not (is_done (cause store parent)))
          × (cause w.store (ctx w.chan) ≡ cause store parent)
          × (ctx w.chan ≡ length store)
          × (length w.store ≡ suc (length store))
          × (w.chan.chan.handle.cancel_func ≡ some (ctx w.chan))
          × (w.chan.deferfuncs ≡ some [])
          × (w.chan.chan.ch ≡ record { buf = []; cap = chanbufsize; closed = false }))
unfolding new_main new_from make_chan
new_main_branches F chanbufsize parent sig sigs store = (
  refl,
  (
    fresh,
    not (is_done (cause store parent)),
    ground (arith, cause-fresh store parent),
    refl,
    cause-fresh store parent,
    refl,
    refl,
    refl,
    refl,
    refl,
  ),
)
  where
    fresh : World F
    fresh = record {
      chan = record {
        chan = record {
          handle = record { context = length store; cancel_func = some (length store) };
          ch = record { buf = []; cap = chanbufsize; closed = false };
        };
        deferfuncs = some [];
        deferlast = none;
        deferfirst = none;
      };
      store = record { parent = some parent; own = none } ∷ store;
    }
