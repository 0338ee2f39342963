-- ===== src/Superchan/Double.antt =====
-- superchan/superchan.go: handledoublein, which NewDouble calls for each input.
pub mod Laws
use mostly.Common.{ℕ, ◌≡◌, List, [], ◌∷◌, Bool, true, false, Option, none, some, ◌||◌}
use mostly.Cancellable.Context.{Err, Store}
use mostly.Cancellable.Handle.{call_cancel}
use mostly.Cancellable.Chan.{Channel, try_send}
use mostly.Superchan.State.{Superchan, has_err}

-- How a call of handledoublein ends: it returns, or its send finds the channel closed.
pub data DoubleEnd : Type 0 where
  came_back send_panicked : DoubleEnd

-- What a call of the handler leaves: what `*out` points to (`none` is nil), its error, and the
-- contexts and the second channel as they are when it returns, after what others did meanwhile.
pub record HandlerResult (T : Type 0) : Type 0 where
  pub out : Option T
  pub error : Option Err
  pub store : Store
  pub ch : Channel T

module _ {F : Type 0} {T : Type 0} where
  -- `chctx.Err() != nil || chctx2.Err() != nil`, and also whether a case of Done is ready.
  abbrev pub either_done : Superchan F T → Superchan F T → Store → Bool
  either_done chctx chctx2 store = has_err chctx store || has_err chctx2 store

  -- handledoublein, with the contexts and the second channel that it leaves. Where a context is done
  -- and the channel can take the value too, `select` may take either case. `try_send` is the send with
  -- the default case where nobody waits to receive; one who waits on the open and empty channel gets
  -- the value, with a buffer or without, and the channel is left as it is.
  pub data Handledoublein (handler : T → Store → HandlerResult T) (chctx chctx2 : Superchan F T)
      (v : T) (store : Store) : Store → Channel T → DoubleEnd → Type 0 where
    already_done :
        either_done chctx chctx2 store ≡ true
        → Handledoublein handler chctx chctx2 v store store chctx2.chan.ch came_back
    handler_fails :
        (e : Err) (t : Store)
        → either_done chctx chctx2 store ≡ false
        → (handler v store).error ≡ some e
        → call_cancel chctx.chan.handle (some e) (handler v store).store ≡ some t
        → Handledoublein handler chctx chctx2 v store t (handler v store).ch came_back
    handled :
        either_done chctx chctx2 store ≡ false
        → (handler v store).error ≡ none
        → (handler v store).out ≡ none
        → Handledoublein handler chctx chctx2 v store
            (handler v store).store
            (handler v store).ch
            came_back
    sees_done :
        (w : T)
        → either_done chctx chctx2 store ≡ false
        → (handler v store).error ≡ none
        → (handler v store).out ≡ some w
        → either_done chctx chctx2 (handler v store).store ≡ true
        → Handledoublein handler chctx chctx2 v store
            (handler v store).store
            (handler v store).ch
            came_back
    sends :
        (w : T) (c : Channel T)
        → either_done chctx chctx2 store ≡ false
        → (handler v store).error ≡ none
        → (handler v store).out ≡ some w
        → try_send (handler v store).ch w ≡ some c
        → Handledoublein handler chctx chctx2 v store (handler v store).store c came_back
    hands_over :
        (w : T)
        → either_done chctx chctx2 store ≡ false
        → (handler v store).error ≡ none
        → (handler v store).out ≡ some w
        → (handler v store).ch.closed ≡ false
        → (handler v store).ch.buf ≡ []
        → Handledoublein handler chctx chctx2 v store
            (handler v store).store
            (handler v store).ch
            came_back
    send_panics :
        (w : T)
        → either_done chctx chctx2 store ≡ false
        → (handler v store).error ≡ none
        → (handler v store).out ≡ some w
        → try_send (handler v store).ch w ≡ none
        → Handledoublein handler chctx chctx2 v store
            (handler v store).store
            (handler v store).ch
            send_panicked
