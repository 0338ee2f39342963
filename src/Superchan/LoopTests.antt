-- ===== src/Superchan/LoopTests.antt =====
-- The handlers of a superchan at concrete inputs. Deferred functions are numbers, and none panics.
use mostly.Common.{
  ℕ, ◌*◌, ◌≡◌, refl, ◌⊎◌, List, [], ◌∷◌, arith, Bool, true, false, Option, none, some, leb,
  if◌then◌else◌,
}
use mostly.Cancellable.Context.{Err, caught, custom, Store, cause, cancel, set_own}
use mostly.Cancellable.Handle.{call_cancel}
use mostly.Cancellable.Chan.{receive}
use mostly.Superchan.State.{Superchan, Config, is_dead, clear, has_err, groups}
use mostly.Superchan.Goroutines.{Event, began, returned}
use mostly.Superchan.Goroutines.Barriers.{Stretches}
use mostly.Superchan.Rundeferred.{in_sequence, finished, call_groups, call_each}
use mostly.Superchan.Rundeferred.Laws.{InOrder}
use mostly.Superchan.Main.{
  World, MainEvent, MainSignalHandler, cancel_then_deferred, cancelled, deferred, signal_stopped,
  chan_closed,
}
use mostly.Superchan.Main.Laws.{MainSignalHandler-finished, Order}
use mostly.Superchan.Main.Ends.{IsWoken, MainSignalHandler-returns}
use mostly.Superchan.Reader.Ends.{HasRunDeferred, idle_reader_runs_deferred}
use mostly.Superchan.Reader.{Step, ended}
use mostly.Superchan.Rundeferred.{Finish}
use mostly.Common.{◌++◌, ◌↔◌, inr}
use mostly.Superchan.Reader
use mostly.Superchan.Reader.{Reader, at_test, at_select, Run, handle_input}
use mostly.Superchan.Reader.Laws.{reader_runs_deferred_once}
use mostly.Superchan.Reader.Errors.{handler_error_skips_deferred}
use mostly.Superchan.Wait.{wait_superchan, poll_pause, Polled}
use mostly.Superchan.Wait.Laws.{wait_superchan_lem, Ends}

abbrev quiet : ℕ → Bool
quiet f = false

-- A superchan on the only context of its store, with the signal 15 in its channel.
abbrev signalled : Superchan ℕ ℕ
signalled = record {
  chan = record {
    handle = record { context = 0; cancel_func = some 0 };
    ch = record { buf = 15 ∷ []; cap = 4; closed = false };
  };
  deferfuncs = some (3 ∷ []);
  deferlast = none;
  deferfirst = none;
}

abbrev emptied : Superchan ℕ ℕ
emptied = record signalled {
  chan = record signalled.chan { ch = record { buf = []; cap = 4; closed = false } };
}

abbrev root : Store
root = record { parent = none; own = none } ∷ []

abbrev before_exit : World ℕ
before_exit = record { chan = signalled; store = root }

abbrev direct : Config
direct = record { cancel_before_defer = true; use_goroutine_defer = false }

abbrev handler_events : List (MainEvent ℕ)
handler_events =
    cancelled (caught 15)
    ∷ deferred (began 3)
    ∷ deferred (returned 3)
    ∷ signal_stopped
    ∷ chan_closed
    ∷ []

abbrev after_exit : World ℕ
after_exit = record {
  chan = record {
    chan = record emptied.chan { ch = record { buf = []; cap = 4; closed = true } };
    deferfuncs = none;
    deferlast = none;
    deferfirst = none;
  };
  store = record { parent = none; own = some (caught 15) } ∷ [];
}

handler_run : MainSignalHandler quiet direct caught 0 before_exit handler_events after_exit finished
unfolding is_dead call_groups call_each clear receive call_cancel cancel cause set_own
handler_run =
    cancel_then_deferred 15 (began 3 ∷ returned 3 ∷ []) (clear emptied)
      (record { parent = none; own = some (caught 15) } ∷ []) [] refl refl refl
      (in_sequence refl refl refl)

MainSignalHandler-finished_example :
    (fs : List (Event ℕ)) × Stretches quiet (groups before_exit.chan) fs
    × InOrder quiet direct before_exit.chan fs
    × Order quiet direct caught 0 before_exit [] fs handler_events after_exit.store
    × (is_dead after_exit.chan ≡ true)
    × (after_exit.chan.chan.ch.closed ≡ true)
unfolding handler_run
MainSignalHandler-finished_example =
    MainSignalHandler-finished quiet direct caught 0 refl (omega arith) handler_run

-- A handler that refuses 15.
abbrev refusing : ℕ → Option Err
refusing v = if leb 15 v then some (custom v) else none

abbrev selecting : Reader ℕ ℕ
selecting = record { chan = signalled; store = root; phase = at_select; in_flight = [] }

abbrev refused : Reader ℕ ℕ
refused = record {
  chan = emptied;
  store = record { parent = none; own = some (custom 15) } ∷ [];
  phase = at_test;
  in_flight = [];
}

refuses : Step quiet direct refusing false 0 selecting [] refused
unfolding receive handle_input call_cancel cancel cause set_own
refuses = Reader.takes_input 15 emptied.chan.ch refused.store refl refl refl refl

abbrev left_behind : Reader ℕ ℕ
left_behind = record refused { phase = Reader.ended }

leaves : Run quiet direct refusing false 0 refused [] left_behind
unfolding cause
leaves = Reader.next (Reader.loop_ends refl refl) tt Reader.here

handler_error_skips_deferred_example :
    (◌≡◌ {A = List (Event ℕ)} ([] ++ []) [])
    × (is_dead left_behind.chan ≡ false)
    × (has_err left_behind.chan left_behind.store ≡ true)
unfolding is_dead refuses
handler_error_skips_deferred_example =
    handler_error_skips_deferred quiet direct refusing 0 selecting refused left_behind [] [] 15
      (custom 15) refl (omega arith) refl refl refl refuses refl leaves

-- Someone else cancels before the test, and the loop never comes to `select`; before that it does.
selects : Run quiet direct refusing false 0 (record selecting { phase = at_test }) [] selecting
unfolding cause
selects = Reader.next (Reader.loop_goes_on refl refl) tt Reader.here

reader_runs_deferred_once_example : is_dead selecting.chan ≡ false
unfolding is_dead
reader_runs_deferred_once_example =
    reader_runs_deferred_once quiet direct refusing false 0 refl selects refl

wait_superchan_example :
    ((cause after_exit.store 0 ≡ none)
      × (wait_superchan 20000000 (λ n. n * poll_pause) (λ n. leb 1 n) 3 signalled after_exit.store
          ≡ none))
    ⊎ ((e : Err) × (r : Option Polled) × (cause after_exit.store 0 ≡ some e)
        × (wait_superchan 20000000 (λ n. n * poll_pause) (λ n. leb 1 n) 3 signalled after_exit.store
            ≡ some (e, r))
        × Ends 20000000 (λ n. n * poll_pause) (λ n. leb 1 n) 0 r)
wait_superchan_example =
    wait_superchan_lem 20000000 (λ n. n * poll_pause) (λ n. leb 1 n) signalled after_exit.store 2
      (λ n. omega arith) (omega arith)

MainSignalHandler-returns_example :
    (((es : List (MainEvent ℕ)) × (v : World ℕ) × MainSignalHandler quiet direct caught 0
          before_exit es v finished)
      ↔ IsWoken quiet direct caught 0 before_exit)
    × ((v : World ℕ) (es : List (MainEvent ℕ)) (fin : Finish)
        → MainSignalHandler quiet direct caught 0 before_exit es v fin
        → (fin ≡ finished)
          × ((front : List (MainEvent ℕ)) × (es ≡ front ++ signal_stopped ∷ chan_closed ∷ [])))
unfolding is_dead
MainSignalHandler-returns_example =
    MainSignalHandler-returns quiet direct caught 0 before_exit refl (λ e. ground arith) refl
      (inr (λ f. refl))

-- The goroutine in `select` when the context is done.
abbrev idle : Reader ℕ ℕ
idle = record { chan = emptied; store = after_exit.store; phase = at_select; in_flight = [] }

idle_reader_runs_deferred_example :
    ((es : List (Event ℕ)) × (s : Reader ℕ ℕ) × Run quiet direct refusing false 0 idle es s
      × (s.phase ≡ ended)
      × HasRunDeferred quiet direct refusing false 0 idle es s)
    × ((es : List (Event ℕ)) (s : Reader ℕ ℕ)
        → Step quiet direct refusing false 0 idle es s
        → ((s.phase ≡ at_select) × (es ≡ []))
          ⊎ ((s.phase ≡ at_test) × HasRunDeferred quiet direct refusing false 0 idle es s))
unfolding is_dead receive cause
idle_reader_runs_deferred_example =
    idle_reader_runs_deferred quiet direct refusing false 0 idle refl refl refl refl
      (inr (λ f. refl))
