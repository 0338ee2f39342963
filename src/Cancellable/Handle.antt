-- ===== src/Cancellable/Handle.antt =====
-- cancellable/cancellable.go. A function takes and returns the store of contexts; `none` is a panic.
use mostly.Common.{ℕ, Option, none, some}
use mostly.Cancellable.Context.{Err, Store, with_cancel_cause, cause, cancel}

-- A context and the cancel function of a context, which NewFrom does not force to be the same one.
pub record Cancellable : Type 0 where
  pub context : ℕ
  pub cancel_func : Option ℕ

unfoldable pub new_from : ℕ → Option ℕ → Cancellable
new_from the cancelfunc = record { context = the; cancel_func = cancelfunc }

unfoldable pub new : Option ℕ → Store → Cancellable × Store
unfolding new_from with_cancel_cause
new parent s = let (ctx, t) = with_cancel_cause parent s in (new_from ctx (some ctx), t)

unfoldable pub call_cancel : Cancellable → Option Err → Store → Option Store
call_cancel c e s = elim c.cancel_func [ none ↦ none | some id ↦ some (cancel s id e) ]

unfoldable pub get_context : Cancellable → ℕ
get_context c = c.context

-- `<-c.Done()` and the cause: `none` as long as the call blocks.
unfoldable pub wait : Cancellable → Store → Option Err
wait c s = cause s c.context
