-- ===== src/Superchan/State.antt =====
-- superchan/superchan.go: the type Superchan, NewRaw, and the methods that only read or write it.
-- A deferred function is a value of a type F that the model does not look into.
pub mod Laws
use mostly.Common.{ℕ, List, [], ◌∷◌, Bool, true, false, Option, none, some, if◌then◌else◌}
use mostly.Cancellable.Context.{Err, Store, cause, is_done}
use mostly.Cancellable.Handle.{Cancellable}
use mostly.Cancellable.Chan.{Channel, CancellableChan, new_chan}

-- The panics of the package, by their messages.
pub data Panic : Type 0 where
  defer_after_cancel deferfirst_already_set deferlast_already_set : Panic
  rundeferred_called_twice no_signals_provided no_handler_provided : Panic
  nil_context : Panic

pub data Outcome {ℓ} (A : Type ℓ) : Type ℓ where
  ok : A → Outcome A
  panic : Panic → Outcome A

-- The variables CancelBeforeDefer and UseGoroutineDefer.
pub record Config : Type 0 where
  pub cancel_before_defer : Bool
  pub use_goroutine_defer : Bool

abbrev pub default_config : Config
default_config = record { cancel_before_defer = true; use_goroutine_defer = true }

-- `deferfuncs` is `none` where the slice is nil.
pub record Superchan (F : Type 0) (T : Type 0) : Type 0 where
  pub chan : CancellableChan T
  pub deferfuncs : Option (List F)
  pub deferlast : Option F
  pub deferfirst : Option F

module _ {F : Type 0} where
  abbrev pub funcs : Option (List F) → List F
  funcs none = []
  funcs (some fs) = fs

  abbrev pub optional : Option F → List F
  optional none = []
  optional (some f) = f ∷ []

  -- Each function is put in front of those that were added before it.
  pub defer_loop : List F → Option (List F) → Option (List F)
  defer_loop [] fs = fs
  defer_loop (ff ∷ f) fs = defer_loop f (some (ff ∷ funcs fs))

module _ {F T : Type 0} where
  abbrev pub ctx : Superchan F T → ℕ
  ctx s = s.chan.handle.context

  -- `s.Err() != nil`.
  abbrev pub has_err : Superchan F T → Store → Bool
  has_err s store = is_done (cause store (ctx s))

  unfoldable pub is_dead : Superchan F T → Bool
  is_dead s = elim s.deferfuncs [ none ↦ true | some fs ↦ false ]

  -- NewRaw; `chanbufsize` is CHANBUFSIZE.
  unfoldable pub new_raw : ℕ → Option ℕ → Store → Outcome (Superchan F T × Store)
  unfolding new_chan
  new_raw chanbufsize parent store = elim (new_chan {T = T} chanbufsize parent store) [
    | none ↦ panic nil_context
    | some (c, t) ↦
        ok (record { chan = c; deferfuncs = some []; deferlast = none; deferfirst = none }, t)
  ]

  unfoldable pub defer : List F → Superchan F T → Store → Outcome (Superchan F T)
  unfolding defer_loop
  defer f s store =
      if has_err s store
      then panic defer_after_cancel
      else ok (record s { deferfuncs = defer_loop f s.deferfuncs })

  unfoldable pub defer_first : F → Superchan F T → Store → Outcome (Superchan F T)
  defer_first f s store = if has_err s store then panic defer_after_cancel else elim s.deferfirst [
    | none ↦ ok (record s { deferfirst = some f })
    | some g ↦ panic deferfirst_already_set
  ]

  unfoldable pub defer_last : F → Superchan F T → Store → Outcome (Superchan F T)
  defer_last f s store = if has_err s store then panic defer_after_cancel else elim s.deferlast [
    | none ↦ ok (record s { deferlast = some f })
    | some g ↦ panic deferlast_already_set
  ]

  unfoldable pub get_deferred : Superchan F T → Option (List F)
  get_deferred s = s.deferfuncs

  unfoldable pub set_deferred : Option (List F) → Superchan F T → Superchan F T
  set_deferred f s = record s { deferfuncs = f }

  -- The three assignments with which rundeferred ends.
  unfoldable pub clear : Superchan F T → Superchan F T
  clear s = record s { deferlast = none; deferfirst = none; deferfuncs = none }

  -- The functions of a superchan in the three groups in which rundeferred calls them.
  abbrev pub groups : Superchan F T → List (List F)
  groups s = optional s.deferfirst ∷ funcs s.deferfuncs ∷ optional s.deferlast ∷ []
