-- ===== src/Superchan/InputTests.antt =====
-- Two inputs, of which others send the second, and New's loop, which handles both.
use mostly.Common.{
  ℕ, ◌≡◌, ◌⊎◌, refl, List, [], ◌∷◌, ◌++◌, Perm, arith, Bool, true, false, Option, none, some,
}
use mostly.Cancellable.Context.{Err, Store, cause}
use mostly.Cancellable.Chan.{Channel, receive}
use mostly.Superchan.State.{Superchan, Config}
use mostly.Superchan.Reader.{
  Reader, at_test, at_select, others_use_channel, takes_input, loop_goes_on, handle_input,
}
use mostly.Superchan.Reader.Inputs.{InputRun, at_start, and_then, inputs_in_order}
use mostly.Superchan.Reader.Failures.{Told}

abbrev holding : List ℕ → Superchan ℕ ℕ
holding buf = record {
  chan = record {
    handle = record { context = 0; cancel_func = some 0 };
    ch = record { buf = buf; cap = 4; closed = false };
  };
  deferfuncs = some [];
  deferlast = none;
  deferfirst = none;
}

abbrev root : Store
root = record { parent = none; own = none } ∷ []

abbrev quiet : ℕ → Bool
quiet f = false

abbrev direct : Config
direct = record { cancel_before_defer = true; use_goroutine_defer = false }

abbrev accepting : ℕ → Option Err
accepting v = none

abbrev waiting : Reader ℕ ℕ
waiting = record { chan = holding (15 ∷ []); store = root; phase = at_select; in_flight = [] }

abbrev done : Reader ℕ ℕ
done = record { chan = holding []; store = root; phase = at_test; in_flight = [] }

abbrev ch_of : List ℕ → Channel ℕ
ch_of buf = record { buf = buf; cap = 4; closed = false }

both_inputs :
    InputRun quiet direct accepting false 0 waiting (15 ∷ 16 ∷ []) (15 ∷ 16 ∷ []) (16 ∷ []) done
unfolding receive handle_input cause
both_inputs =
    and_then []
      (and_then []
        (and_then [] (and_then (16 ∷ []) at_start (others_use_channel (ch_of (15 ∷ 16 ∷ []))) refl)
          (takes_input 15 (ch_of (16 ∷ [])) root refl refl refl refl) refl)
        (loop_goes_on refl refl) refl)
      (takes_input 16 (ch_of []) root refl refl refl refl) refl

inputs_in_order_example :
    (◌≡◌ {A = List ℕ} ((15 ∷ []) ++ (16 ∷ [])) ((15 ∷ 16 ∷ []) ++ []))
    × Perm {A = ℕ} (15 ∷ 16 ∷ []) ((15 ∷ 16 ∷ []) ++ [])
    × ((false ≡ true)
        ⊎ ((◌≡◌ {A = List ℕ} (15 ∷ 16 ∷ []) (15 ∷ 16 ∷ [])) × (◌≡◌ {A = List ℕ} [] [])))
    × Told quiet direct accepting false 0 done (15 ∷ 16 ∷ [])
inputs_in_order_example =
    inputs_in_order quiet direct accepting false 0 waiting done (15 ∷ 16 ∷ []) (15 ∷ 16 ∷ [])
      (16 ∷ []) refl refl refl (omega arith) both_inputs
