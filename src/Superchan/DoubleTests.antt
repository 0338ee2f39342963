-- ===== src/Superchan/DoubleTests.antt =====
-- handledoublein with concrete handlers.
use mostly.Common.{ℕ, ◌+◌, refl, [], ◌∷◌, true, false, none, some}
use mostly.Cancellable.Context.{custom, Store, cause, cancel}
use mostly.Cancellable.Handle.{call_cancel}
use mostly.Cancellable.Chan.{Channel, try_send}
use mostly.Superchan.State.{Superchan}
use mostly.Superchan.Double.{
  HandlerResult, came_back, Handledoublein, handler_fails, sends, hands_over,
}

-- A context and one below it.
abbrev two : Store
two = record { parent = some 0; own = none } ∷ record { parent = none; own = none } ∷ []

abbrev on : ℕ → Channel ℕ → Superchan ℕ ℕ
on id c = record {
  chan = record { handle = record { context = id; cancel_func = some id }; ch = c };
  deferfuncs = some [];
  deferlast = none;
  deferfirst = none;
}

abbrev roomy : Channel ℕ
roomy = record { buf = 5 ∷ []; cap = 2; closed = false }

abbrev shut_down : Channel ℕ
shut_down = record roomy { closed = true }

abbrev doubling : ℕ → Store → HandlerResult ℕ
doubling v store = record { out = some (v + v); error = none; store = store; ch = roomy }

abbrev failing : ℕ → Store → HandlerResult ℕ
failing v store = record { out = some v; error = some (custom v); store = store; ch = roomy }

-- While this handler runs, others cancel the first context and close the channel.
abbrev slow : ℕ → Store → HandlerResult ℕ
slow v store = record { out = some v; error = none; store = cancel store 0 none; ch = shut_down }

delivered :
    Handledoublein doubling
      (on 0 roomy)
      (on 1 roomy)
      4
      two
      two
      (record roomy { buf = 5 ∷ 8 ∷ [] })
      came_back
unfolding try_send cause
delivered = sends 8 (record roomy { buf = 5 ∷ 8 ∷ [] }) refl refl refl refl

failed :
    Handledoublein failing
      (on 0 roomy)
      (on 1 roomy)
      4
      two
      (cancel two 0 (some (custom 4)))
      roomy
      came_back
unfolding call_cancel cause
failed = handler_fails (custom 4) (cancel two 0 (some (custom 4))) refl refl refl

-- A receiver that waits on a channel without a buffer gets the value.
abbrev unbuffered : Channel ℕ
unbuffered = record { buf = []; cap = 0; closed = false }

abbrev passing : ℕ → Store → HandlerResult ℕ
passing v store = record { out = some v; error = none; store = store; ch = unbuffered }

passed : Handledoublein passing (on 0 roomy) (on 1 unbuffered) 4 two two unbuffered came_back
unfolding cause
passed = hands_over 4 refl refl refl refl refl
