-- ===== src/Superchan/Life.antt =====
-- The life of a main superchan: NewMain, the calls of Defer, DeferFirst and DeferLast, a signal, and Wait.
use mostly.Common.{
  suc, ℕ, ◌<◌, ◌≤◌, ◌≡◌, ◌⊎◌, refl, ap, sym, ◌∙◌, subst, inl, inr, List, [], ◌∷◌, ◌++◌, map, arith,
  Bool, true, false, Option, none, some, length,
}
use mostly.Cancellable.Context.{Err, Store, cause, get_or}
use mostly.Cancellable.Chan.{Channel, receive, got}
use mostly.Superchan.State.{
  Superchan, Config, ok, panic, defer_after_cancel, optional, groups, is_dead, ctx, defer,
}
use mostly.Superchan.Goroutines.{Event}
use mostly.Superchan.Goroutines.Barriers.{Stretches, both}
use mostly.Superchan.Rundeferred.{finished}
use mostly.Superchan.Main.{
  MainEvent, deferred, cancelled, closing, signal_stopped, chan_closed, World, cancel_all, new_main,
  MainSignalHandler, others_of,
}
use mostly.Superchan.Main.Laws.{Order, MainSignalHandler-finished}
use mostly.Superchan.Main.Kept.{new_main-own, handler_keeps}
use mostly.Superchan.Reader.{with_ch}
use mostly.Superchan.Wait.Laws.{wait_superchan_dead}
use mostly.Superchan.Wait.{seen_dead, wait_superchan}
use mostly.Superchan.Defers.{DeferCall, call_defers, stacked, first_of, last_of, call_defers-ok}

closing_usable :
    {F : Type 0} (s : Superchan F ℕ)
    → s.chan.ch.closed ≡ false
    → closing s ≡ signal_stopped ∷ chan_closed ∷ []
closing_usable s usable = rw usable refl

module _ {F : Type 0} (panics : F → Bool) (cfg : Config) (make_signal_error : ℕ → Err)
    (zero_value : ℕ) (max_wait : ℕ) (elapsed : ℕ → ℕ) where
  -- How the handler has ended by the signal that it received, with the error that the context's cause
  -- is then, where `others` is what others have cancelled in its run.
  abbrev pub EndsWith :
      World F → List (ℕ × Option Err) → List (Event F) → List (MainEvent F) → Err → Type 0
  EndsWith w others fs es e =
      ((sig : ℕ) × (left : Channel ℕ) × (receive zero_value w.chan.chan.ch ≡ got sig left)
        × (cfg.cancel_before_defer ≡ true)
        × (e ≡ make_signal_error sig)
        × (es
            ≡ cancelled (make_signal_error sig)
              ∷ (map deferred fs ++ signal_stopped ∷ chan_closed ∷ [])))
      ⊎ ((sig : ℕ) × (left : Channel ℕ) × (receive zero_value w.chan.chan.ch ≡ got sig left)
          × (cfg.cancel_before_defer ≡ false)
          × (e ≡ get_or (cause (cancel_all others w.store) (ctx w.chan)) (make_signal_error sig))
          × (es
              ≡ map deferred fs
                ++ cancelled (make_signal_error sig) ∷ signal_stopped ∷ chan_closed ∷ []))

  Order-EndsWith :
      (w : World F) (others : List (ℕ × Option Err)) (fs : List (Event F)) (es : List (MainEvent F))
      (store : Store)
      → cause w.store (ctx w.chan) ≡ none
      → w.chan.chan.ch.closed ≡ false
      → Order panics cfg make_signal_error zero_value w others fs es store
      → (e : Err) × (cause store (ctx w.chan) ≡ some e) × EndsWith w others fs es e
  Order-EndsWith w others fs es store live usable (inl (c, was, done, is)) = absurd (ground arith)
  Order-EndsWith w others fs es store live usable (inr (inl (sig, left, r, before, done, is))) = (
    make_signal_error sig,
    done ∙ ap (λ c. some (get_or c (make_signal_error sig))) live,
    inl (
      sig,
      left,
      r,
      before,
      refl,
      is
          ∙ ap (λ l. cancelled (make_signal_error sig) ∷ (map deferred fs ++ l))
              (closing_usable w.chan usable),
    ),
  )
  Order-EndsWith w others fs es store live usable (inr (inr (sig, left, r, behind, done, is))) = (
    _,
    done,
    inr (
      sig,
      left,
      r,
      behind,
      refl,
      is
          ∙ ap (λ l. map deferred fs ++ cancelled (make_signal_error sig) ∷ l)
              (closing_usable w.chan usable),
    ),
  )

  -- The calls by groups, and that they are the same for the same groups.
  abbrev in_turns : List (List F) → List (Event F)
  in_turns (a ∷ b ∷ c ∷ gs) = both panics a ++ (both panics b ++ both panics c)
  in_turns gs = []

  turns : {gs hs : List (List F)} → gs ≡ hs → in_turns gs ≡ in_turns hs
  turns same = ap in_turns same

  Defer_late :
      (f : List F) (s : Superchan F ℕ) (store : Store) (e : Err)
      → cause store (ctx s) ≡ some e
      → defer f s store ≡ panic defer_after_cancel
  unfolding defer
  Defer_late f s store e done = rw (done, defer)

  -- NewMain with a signal makes a superchan, to which functions are added by calls of Defer, DeferFirst
  -- and DeferLast that do not panic. Others make contexts and cancel them and fill its open channel,
  -- its context is live when its handler finds a signal, and the handler returns. Then the function
  -- of the DeferFirst call has begun and ended before those of the Defer calls, and these before the
  -- function of the DeferLast call; each has run once. Without goroutines those of the Defer calls
  -- have run one after another, the last added first. The handler has called Cancel with the error
  -- of the signal that it received from the channel, before them or behind them all as
  -- CancelBeforeDefer says, and then stopped the signals and closed the channel. Wait returns, at its
  -- first poll, that error, or, with the Cancel behind the functions, the error with which others
  -- cancelled the context in this run; and Defer panics from then on.
  pub main_life :
      (chanbufsize parent sig : ℕ) (sigs : List ℕ) (store later : Store) (w : World F)
      (started : Bool) (calls : List (DeferCall F × Store)) (u : Superchan F ℕ) (c : Channel ℕ)
      (es : List (MainEvent F)) (v : World F) (rounds : ℕ) (f : List F)
      → new_main chanbufsize (some parent) (sig ∷ sigs) store ≡ ok (w, started)
      → call_defers calls w.chan ≡ ok u
      → length w.store ≤ length later
      → c.closed ≡ false
      → cause later (ctx u) ≡ none
      → (handler : MainSignalHandler panics cfg make_signal_error zero_value
          (record { chan = with_ch u c; store = later })
          es
          v
          finished)
      → elapsed 0 < max_wait
      → (fs : List (Event F)) × Stretches panics
          (optional (first_of calls none) ∷ stacked calls [] ∷ optional (last_of calls none) ∷ [])
          fs
        × ((cfg.use_goroutine_defer ≡ true)
            ⊎ (fs
                ≡ both panics (optional (first_of calls none))
                  ++ (both panics (stacked calls [])
                      ++ both panics (optional (last_of calls none)))))
        × ((e : Err) × EndsWith
              (record { chan = with_ch u c; store = later })
              (others_of handler)
              fs
              es
              e
            × (wait_superchan max_wait elapsed (λ n. is_dead v.chan) (suc rounds) v.chan v.store
                ≡ some (e, some (seen_dead 0)))
            × (defer f v.chan v.store ≡ panic defer_after_cancel))
  main_life chanbufsize parent sig sigs store later w started calls u c es v rounds f made added
        grown usable live handler early =
      let (own, inside, no_first, no_last, no_funcs) =
        new_main-own chanbufsize parent (sig ∷ sigs) store w started made in
      let u_is = call_defers-ok calls w.chan u [] no_funcs added in
      let same = ap (λ (s : Superchan F ℕ). s.chan.handle) u_is in
      let start : World F = record { chan = with_ch u c; store = later } in
      let own_now : u.chan.handle.cancel_func ≡ some (ctx u) =
        ap (λ h. h.cancel_func) same ∙ own ∙ ap (λ h. some h.context) (sym same) in
      let there : ctx u < length later =
        subst (λ h. h.context < length later) (sym same) (omega (arith, inside, grown)) in
      let (fs, stretches, in_turn, order, dead, _) =
        MainSignalHandler-finished panics cfg make_signal_error zero_value {w = start} own_now there
          handler in
      let (kept, _) =
        handler_keeps panics cfg make_signal_error zero_value {w = start} own_now handler in
      let (e, done, ends) =
        Order-EndsWith start (others_of handler) fs es v.store live usable order in
      let done_now : cause v.store (ctx v.chan) ≡ some e =
        ap (λ h. cause v.store h.context) kept ∙ done in
      let in_groups : groups u
          ≡ optional (first_of calls none) ∷ stacked calls [] ∷ optional (last_of calls none) ∷ [] =
        ap (λ (s : Superchan F ℕ). groups s) u_is
        ∙ ap
            (λ o.
              optional (first_of calls o)
              ∷ stacked calls []
              ∷ optional (last_of calls w.chan.deferlast)
              ∷ [])
            no_first
        ∙ ap
            (λ o.
              optional (first_of calls none) ∷ stacked calls [] ∷ optional (last_of calls o) ∷ [])
            no_last in
      (
        fs,
        subst (λ gs. Stretches panics gs fs) in_groups stretches,
        elim in_turn [ inl parallel ↦ inl parallel | inr is ↦ inr (is ∙ turns in_groups) ],
        (
          e,
          ends,
          wait_superchan_dead max_wait elapsed rounds v.chan v.store e done_now dead early,
          Defer_late f v.chan v.store e done_now,
        ),
      )
