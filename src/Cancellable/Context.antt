-- ===== src/Cancellable/Context.antt =====
-- The contexts of Go's package context that the library makes, all by WithCancelCause, as a store.
-- A context is named by the number of contexts made before it. The store keeps the newest first,
-- so that a context's parent is always further down.
pub mod Laws
use mostly.Common.{
  ℕ, List, [], ◌∷◌, Bool, true, false, ◌||◌, Option, none, some, length, ◌==◌, if◌then◌else◌,
}

-- The error values that pass through a context: context.Canceled, the value that MakeSignalError
-- makes of a signal, and any other.
pub data Err : Type 0 where
  canceled : Err
  caught : ℕ → Err
  custom : ℕ → Err

-- `own` is the cause that the context's cancel function was first called with. `parent` is `none`
-- for context.Background, which is never done.
pub record Node : Type 0 where
  pub parent : Option ℕ
  pub own : Option Err

abbrev pub Store : Type 0
Store = List Node

abbrev pub first_some {ℓ} : {A : Type ℓ} → Option A → Option A → Option A
first_some none b = b
first_some (some a) b = some a

abbrev pub get_or : Option Err → Err → Err
get_or none d = d
get_or (some e) d = e

-- context.WithCancelCause.
unfoldable pub with_cancel_cause : Option ℕ → Store → ℕ × Store
with_cancel_cause parent s = (length s, record { parent = parent; own = none } ∷ s)

-- context.Cause. It is `none` as long as the context is not done: a context is done when it was
-- cancelled itself or its parent is done, and what came first is the cause.
unfoldable pub cause : Store → ℕ → Option Err
cause [] id = none
cause (n ∷ s) id =
    let below = cause s id in
    let above : Option Err = elim n.parent [ none ↦ none | some p ↦ cause s p ] in
    if id == length s then first_some n.own above else below

-- ctx.Err(), which says context.Canceled whatever the cause is.
pub err : Store → ℕ → Option Err
unfolding cause
err s id = elim (cause s id) [ none ↦ none | some e ↦ some canceled ]

abbrev pub is_done : Option Err → Bool
is_done none = false
is_done (some e) = true

unfoldable pub set_own : Store → ℕ → Err → Store
set_own [] id e = []
set_own (n ∷ s) id e =
    let rest = set_own s id e in if id == length s then record n { own = some e } ∷ s else n ∷ rest

-- The function that WithCancelCause returns: the first call decides, and a nil error stands for
-- context.Canceled.
unfoldable pub cancel : Store → ℕ → Option Err → Store
unfolding cause set_own
cancel s id e = if is_done (cause s id) then s else set_own s id (get_or e canceled)

-- Whether the context `id` is `root` or was made below it.
unfoldable pub descends : Store → ℕ → ℕ → Bool
descends [] id root = false
descends (n ∷ s) id root =
    let below = descends s id root in
    let above : Bool = elim n.parent [ none ↦ false | some p ↦ descends s p root ] in
    if id == length s then (id == root) || above else below
