-- ===== src/Superchan/Pair/Errors.antt =====
-- What an error of NewDouble's handler leaves undone.
use mostly.Common.{
  ◌<◌, ◌≡◌, ◌≢◌, refl, inl, inr, sym, ap, ◌∙◌, subst, List, [], arith, Bool, true, false, some,
  length, Option-cases,
}
use mostly.Cancellable.Context.{Err, Store, is_done}
use mostly.Cancellable.Handle.{call_cancel}
use mostly.Cancellable.Chan.{Channel}
use mostly.Superchan.State.{Superchan, Config, is_dead, ctx, has_err}
use mostly.Superchan.Goroutines.{Event}
use mostly.Superchan.Reader.{with_ch}
use mostly.Superchan.Reader.Laws.{
  has_err-cancel, defer_done, set_deferred_alive, has_err-set_deferred,
}
use mostly.Superchan.Double.{
  HandlerResult, came_back, either_done, Handledoublein, already_done, handler_fails, handled,
  sees_done, sends, hands_over,
}
use mostly.Superchan.Double.Laws.{Handledoublein_error}
use mostly.Superchan.Pair.{
  Pair, PairPhase, at_select, in_call, after_call, Step, loop_ends, loop_goes_on, takes_done,
  takes_input, call_refused, call_runs, call_returns, call_panics, closes, close_panics,
  others_cancel, others_defer, others_defer_second, others_set_deferred, others_set_deferred_second,
  others_use_channels, KeepsFuncs, Run, here, next,
}

-- The context is done outside of `select`, and no deferred function was called.
record Skipped {F : Type 0} {T : Type 0} (r : Pair F T) : Type 0 where
  leaving : r.phase ≢ at_select
  done : has_err r.chctx r.store ≡ true
  alive : is_dead r.chctx ≡ false

after_call_leaving : (p : PairPhase) → p ≢ at_select → after_call p ≢ at_select
after_call_leaving p ne e = ground arith

has_err-Handledoublein :
    {F T : Type 0} (res : HandlerResult T) (chctx chctx2 : Superchan F T) (v : T)
    (began store t : Store) (c : Channel T)
    → either_done chctx chctx2 began ≡ false
    → res.store ≡ store
    → Handledoublein (λ _ _. res) chctx chctx2 v began t c came_back
    → has_err chctx store ≡ true
    → has_err chctx t ≡ true
unfolding call_cancel
has_err-Handledoublein res chctx chctx2 v began store t c live at (already_done d) h =
    absurd (ground arith)
has_err-Handledoublein res chctx chctx2 v began store t c live at (handler_fails e t2 d bad called)
      h =
    elim (Option-cases chctx.chan.handle.cancel_func) [
      | inl no_cancel ↦ absurd (ground arith)
      | inr (id, own) ↦ ground (arith, has_err-cancel chctx store id (some e) h)
    ]
has_err-Handledoublein res chctx chctx2 v began store t c live at (handled d f nil) h = ground arith
has_err-Handledoublein res chctx chctx2 v began store t c live at (sees_done w d f a done) h =
    ground arith
has_err-Handledoublein res chctx chctx2 v began store t c live at (sends w c2 d f a sent) h =
    ground arith
has_err-Handledoublein res chctx chctx2 v began store t c live at (hands_over w d f a o x) h =
    ground arith

module _ {F T : Type 0} (panics : F → Bool) (cfg : Config) (parallel : Bool) (zero_value : T) where
  Skipped-Step :
      {r s : Pair F T} {es : List (Event F)}
      → (step : Step panics cfg parallel zero_value r es s) → KeepsFuncs step
      → Skipped r
      → Skipped s × (es ≡ [])
  unfolding is_dead
  Skipped-Step {r} (loop_ends p d) keeps k =
      (record { leaving = λ q. cc; done = k.done; alive = k.alive }, refl)
  Skipped-Step {r} (loop_goes_on p d) keeps k = cc (k.done)
  Skipped-Step {r} (takes_done es t fin p d run) keeps k = absurd (k.leaving p)
  Skipped-Step {r} (takes_input v c p g) keeps k = absurd (k.leaving p)
  Skipped-Step {r} (call_refused xs v ys e d) keeps k = (
    record { leaving = after_call_leaving r.phase k.leaving; done = k.done; alive = k.alive },
    refl,
  )
  Skipped-Step {r} (call_runs xs v ys e d) keeps k =
      (record { leaving = k.leaving; done = k.done; alive = k.alive }, refl)
  Skipped-Step {r} (call_returns xs v began ys res t c e d st ch run) keeps k = (
    record {
      leaving = after_call_leaving r.phase k.leaving;
      done = has_err-Handledoublein res r.chctx r.chctx2 v began r.store t c d st run k.done;
      alive = k.alive;
    },
    refl,
  )
  Skipped-Step {r} (call_panics xs v began ys res t c e d st ch run) keeps k =
      (record { leaving = λ q. cc; done = k.done; alive = k.alive }, refl)
  Skipped-Step {r} (closes true p o o2) keeps k =
      (record { leaving = λ q. cc; done = k.done; alive = k.alive }, refl)
  Skipped-Step {r} (closes false p o o2) keeps k =
      (record { leaving = λ q. cc; done = k.done; alive = k.alive }, refl)
  Skipped-Step {r} (close_panics b p o) keeps k =
      (record { leaving = λ q. cc; done = k.done; alive = k.alive }, refl)
  Skipped-Step {r} (others_cancel id e) keeps k = (
    record {
      leaving = k.leaving;
      done = has_err-cancel r.chctx r.store id e k.done;
      alive = k.alive;
    },
    refl,
  )
  Skipped-Step {r} (others_defer f t d) keeps k = absurd (defer_done f r.chctx t r.store k.done d)
  Skipped-Step {r} (others_defer_second f t d) keeps k =
      (record { leaving = k.leaving; done = k.done; alive = k.alive }, refl)
  Skipped-Step {r} (others_set_deferred fs) keeps k = (
    record {
      leaving = k.leaving;
      done = has_err-set_deferred fs r.chctx r.store ∙ k.done;
      alive = set_deferred_alive fs r.chctx keeps;
    },
    refl,
  )
  Skipped-Step {r} (others_set_deferred_second fs) keeps k =
      (record { leaving = k.leaving; done = k.done; alive = k.alive }, refl)
  Skipped-Step {r} (others_use_channels c d) keeps k =
      (record { leaving = k.leaving; done = k.done; alive = k.alive }, refl)

  Skipped-Run :
      {r s : Pair F T} {es : List (Event F)}
      → Run panics cfg parallel zero_value r es s
      → Skipped r
      → Skipped s × (es ≡ [])
  Skipped-Run here k = (k, refl)
  Skipped-Run (next st keeps rest) k =
      let (k1, e1) = Skipped-Step st keeps k in
      let (k2, e2) = Skipped-Run rest k1 in (k2, rw (e1, e2))

  -- Where NewDouble handles its inputs one after another and the handler fails for one, on contexts that
  -- were live when it was called, no deferred function is called then or later, whatever the
  -- goroutine and others go on to do, but for calls of SetDeferred(nil), and nothing is sent for that
  -- input: the error has the first context done, and the loop ends at its test without rundeferred.
  pub double_error_skips_deferred :
      (r s : Pair F T) (es : List (Event F)) (v : T) (began t : Store) (c : Channel T)
      (res : HandlerResult T) (e : Err) (running : List (T × Store))
      → r.phase ≡ in_call
      → r.chctx.chan.handle.cancel_func ≡ some (ctx r.chctx)
      → ctx r.chctx < length r.store
      → is_dead r.chctx ≡ false
      → either_done r.chctx r.chctx2 began ≡ false
      → res.store ≡ r.store
      → res.ch ≡ r.chctx2.chan.ch
      → res.error ≡ some e
      → Handledoublein (λ _ _. res) r.chctx r.chctx2 v began t c came_back
      → Run panics cfg parallel zero_value
          (record r {
            chctx2 = with_ch r.chctx2 c;
            store = t;
            running = running;
            phase = after_call r.phase;
          })
          es
          s
      → (es ≡ [])
        × (is_dead s.chctx ≡ false)
        × (has_err s.chctx s.store ≡ true)
        × (c ≡ r.chctx2.chan.ch)
  double_error_skips_deferred r s es v began t c res e running at own there alive live st ch bad
        call run =
      let (_, same, ended) =
        Handledoublein_error (λ _ _. res) r.chctx r.chctx2 v began t c came_back e own
          (subst (λ (x : Store). ctx r.chctx < length x) (sym st) there) live bad call in
      let (k, quiet) = Skipped-Run run (record {
        leaving = after_call_leaving r.phase (λ q. cc);
        done = ap is_done ended;
        alive = alive;
      }) in
      (quiet, k.alive, k.done, same ∙ ch)
