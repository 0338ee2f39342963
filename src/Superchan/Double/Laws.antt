-- ===== src/Superchan/Double/Laws.antt =====
-- What handledoublein does to the contexts and to the second channel.
use mostly.Common.{
  ◌<◌, ◌≡◌, ◌≢◌, ◌↔◌, inl, inr, refl, true, false, none, some, length, arith, Option-cases,
  Bool-cases,
}
use mostly.Cancellable.Context.{Err, Store, cause, cancel, get_or}
use mostly.Cancellable.Context.Laws.{cause-cancel_self}
use mostly.Cancellable.Handle.{call_cancel}
use mostly.Cancellable.Chan.{Channel, try_send}
use mostly.Superchan.State.{Superchan, ctx}
use mostly.Superchan.Double.{
  HandlerResult, DoubleEnd, came_back, send_panicked, either_done, Handledoublein, already_done,
  handler_fails, handled, sees_done, sends, hands_over, send_panics,
}

module _ {F : Type 0} {T : Type 0} (handler : T → Store → HandlerResult T) where
  -- Where the first superchan has a cancel function, as NewRaw gives it one, some outcome is possible
  -- whatever the contexts, the channel and the handler are.
  pub Handledoublein_some :
      (chctx chctx2 : Superchan F T) (v : T) (store : Store)
      → chctx.chan.handle.cancel_func ≢ none
      → (t : Store) × (c : Channel T) × (end : DoubleEnd) × Handledoublein handler chctx chctx2 v
          store t c end
  unfolding call_cancel
  Handledoublein_some chctx chctx2 v store has =
      elim (Bool-cases (either_done chctx chctx2 store)) [
        | inl d ↦ (store, chctx2.chan.ch, came_back, already_done d)
        | inr live ↦ elim (Option-cases (handler v store).error) [
          | inr (e, is) ↦
              elim (Option-cases (call_cancel chctx.chan.handle (some e) (handler v store).store)) [
                | inl stuck ↦ absurd (ground arith)
                | inr (t, called) ↦
                    (t, (handler v store).ch, came_back, handler_fails e t live is called)
              ]
          | inl fine ↦ elim (Option-cases (handler v store).out) [
            | inl nil ↦
                ((handler v store).store, (handler v store).ch, came_back, handled live fine nil)
            | inr (w, at) ↦ elim (Option-cases (try_send (handler v store).ch w)) [
              | inl shut ↦ (
                (handler v store).store,
                (handler v store).ch,
                send_panicked,
                send_panics w live fine at shut,
              )
              | inr (c, sent) ↦ ((handler v store).store, c, came_back, sends w c live fine at sent)
            ]
          ]
        ]
      ]

  -- Where the contexts are live at the call and the handler fails, nothing is sent, and the context of
  -- the first superchan, whose own cancel function it holds, is done: with the handler's error, or with
  -- the cause that it has from before.
  pub Handledoublein_error :
      (chctx chctx2 : Superchan F T) (v : T) (store t : Store) (c : Channel T) (end : DoubleEnd)
      (e : Err)
      → chctx.chan.handle.cancel_func ≡ some (ctx chctx)
      → ctx chctx < length (handler v store).store
      → either_done chctx chctx2 store ≡ false
      → (handler v store).error ≡ some e
      → Handledoublein handler chctx chctx2 v store t c end
      → (end ≡ came_back)
        × (c ≡ (handler v store).ch)
        × (cause t (ctx chctx) ≡ some (get_or (cause (handler v store).store (ctx chctx)) e))
  unfolding call_cancel
  Handledoublein_error chctx chctx2 v store t c end e own old live bad (already_done d) =
      absurd (ground arith)
  Handledoublein_error chctx chctx2 v store t c end e own old live bad
        (handler_fails e2 t2 d bad2 called) =
      let same : e ≡ e2 = ground arith in
      let at : t ≡ cancel (handler v store).store (ctx chctx) (some e) = ground arith in
      (refl, refl, rw at (cause-cancel_self (handler v store).store (ctx chctx) (some e) old))
  Handledoublein_error chctx chctx2 v store t c end e own old live bad (handled d f nil) =
      absurd (ground arith)
  Handledoublein_error chctx chctx2 v store t c end e own old live bad (sees_done w2 d f a done) =
      absurd (ground arith)
  Handledoublein_error chctx chctx2 v store t c end e own old live bad (sends w2 c2 d f a sent) =
      absurd (ground arith)
  Handledoublein_error chctx chctx2 v store t c end e own old live bad (hands_over w2 d f a o x) =
      absurd (ground arith)
  Handledoublein_error chctx chctx2 v store t c end e own old live bad (send_panics w2 d f a shut) =
      absurd (ground arith)

  -- handledoublein can panic exactly where the contexts are live at the call, the handler fails for
  -- nothing and leaves a value, and the second channel is closed when the handler returns, whether or
  -- not a context is done by then.
  pub Handledoublein_panics :
      (chctx chctx2 : Superchan F T) (v : T) (store : Store)
      → ((t : Store) × (c : Channel T) × Handledoublein handler chctx chctx2 v store t c
            send_panicked)
        ↔ ((either_done chctx chctx2 store ≡ false)
            × ((handler v store).error ≡ none)
            × ((w : T) × ((handler v store).out ≡ some w))
            × ((handler v store).ch.closed ≡ true))
  unfolding try_send
  Handledoublein_panics chctx chctx2 v store = (
    λ (t, c, run). panicked_run t c run,
    λ (live, fine, (w, at), shut).
        ((handler v store).store, (handler v store).ch, send_panics w live fine at (ground arith)),
  )
    where
      panicked_run :
          (t : Store) (c : Channel T)
          → Handledoublein handler chctx chctx2 v store t c send_panicked
          → (either_done chctx chctx2 store ≡ false)
            × ((handler v store).error ≡ none)
            × ((w : T) × ((handler v store).out ≡ some w))
            × ((handler v store).ch.closed ≡ true)
      panicked_run t c (send_panics w d f a shut) = (d, f, (w, a), ground arith)
