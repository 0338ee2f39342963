-- ===== src/Superchan/PairTests.antt =====
-- NewDouble: a run in which the second superchan is cancelled, and one in which the handler fails.
use mostly.Common.{inr, ◌≢◌, ℕ, ◌≡◌, ◌⊎◌, refl, List, [], ◌∷◌, Bool, true, false, none, some, arith}
use mostly.Cancellable.Context.{custom, Store, cause, cancel, set_own}
use mostly.Cancellable.Handle.{call_cancel}
use mostly.Superchan.State.{Superchan, Config, ok, is_dead, has_err, defer, new_raw, clear}
use mostly.Superchan.Goroutines.{Event, began, returned}
use mostly.Superchan.Rundeferred.{in_sequence, finished, call_groups, call_each}
use mostly.Superchan.Double.{HandlerResult, handler_fails}
use mostly.Superchan.Pair.Serial.{SerialRun, at_start, and_then, one_at_a_time}
use mostly.Cancellable.Chan.{Channel, receive}
use mostly.Superchan.Pair.{
  crashed, others_use_channels, takes_input, call_runs, Pair, at_test, in_call, at_close, gone,
  new_double, loop_ends, loop_goes_on, takes_done, closes, others_cancel, others_defer, Run, here,
  next, closed_ch,
}
use mostly.Superchan.Pair.Laws.{HasLeft, CalledOnce, double_runs_deferred_once}
use mostly.Superchan.Pair.Errors.{double_error_skips_deferred}

abbrev quiet : ℕ → Bool
quiet f = false

abbrev direct : Config
direct = record { cancel_before_defer = true; use_goroutine_defer = false }

abbrev root : Store
root = record { parent = none; own = none } ∷ []

abbrev chan_on : ℕ → Superchan ℕ ℕ
chan_on id = record {
  chan = record {
    handle = record { context = id; cancel_func = some id };
    ch = record { buf = []; cap = 4; closed = false };
  };
  deferfuncs = some [];
  deferlast = none;
  deferfirst = none;
}

abbrev fresh : Pair ℕ ℕ
fresh = record {
  chctx = chan_on 1;
  chctx2 = chan_on 2;
  store = record { parent = some 1; own = none } ∷ record { parent = some 0; own = none } ∷ root;
  phase = at_test;
  handed = [];
  running = [];
}

new_double_run : new_double 4 (some 0) true root ≡ ok fresh
unfolding new_double new_raw
new_double_run = refl

abbrev with_func : Superchan ℕ ℕ
with_func = record (chan_on 1) { deferfuncs = some (5 ∷ []) }

abbrev left : Pair ℕ ℕ
left = record fresh {
  chctx = closed_ch (clear with_func);
  chctx2 = closed_ch (chan_on 2);
  store = cancel fresh.store 2 none;
  phase = gone;
}

abbrev five : List (Event ℕ)
five = began 5 ∷ returned 5 ∷ []

abbrev no_events : List (Event ℕ)
no_events = []

left_run : Run quiet direct false 0 fresh five left
unfolding defer cause cancel set_own is_dead call_groups call_each clear
left_run = next (others_defer (5 ∷ []) with_func refl) tt (
    next (loop_goes_on refl refl) tt (
      next (others_cancel 2 none) tt (
        next (takes_done five (clear with_func) finished refl refl (in_sequence refl refl refl)) tt
          (next (closes false refl refl refl) tt here))))

double_runs_deferred_once_example :
    (((five ≡ []) × (is_dead left.chctx ≡ false))
      ⊎ (HasLeft left.phase × CalledOnce quiet direct false 0 fresh five left))
    × (is_dead left.chctx2 ≡ false)
double_runs_deferred_once_example =
    double_runs_deferred_once quiet direct false 0 4 0 root new_double_run left_run

-- In a call for the input 7, whose handler fails.
abbrev calling : Pair ℕ ℕ
calling = record fresh { phase = in_call; running = (7, fresh.store) ∷ [] }

abbrev fails : HandlerResult ℕ
fails = record {
  out = some 7;
  error = some (custom 3);
  store = fresh.store;
  ch = calling.chctx2.chan.ch;
}

abbrev after_error : Pair ℕ ℕ
after_error = record fresh { store = cancel fresh.store 1 (some (custom 3)) }

after_error_run :
    Run quiet direct false 0 after_error [] (record after_error { phase = at_close false })
unfolding cause cancel set_own
after_error_run = next (loop_ends refl refl) tt here

double_error_skips_deferred_example :
    (no_events ≡ [])
    × (is_dead (chan_on 1) ≡ false)
    × (has_err (chan_on 1) after_error.store ≡ true)
    × (calling.chctx2.chan.ch ≡ calling.chctx2.chan.ch)
unfolding cause is_dead call_cancel cancel set_own
double_error_skips_deferred_example =
    double_error_skips_deferred quiet direct false 0 calling
      (record after_error { phase = at_close false }) [] 7 fresh.store after_error.store
      calling.chctx2.chan.ch fails (custom 3) [] refl refl (omega arith) refl refl refl refl refl
      (handler_fails (custom 3) after_error.store refl refl refl) after_error_run

abbrev filled : Channel ℕ
filled = record { buf = 7 ∷ []; cap = 4; closed = false }

abbrev empty : Channel ℕ
empty = record { buf = []; cap = 4; closed = false }

-- Others send 7, and the goroutine takes it and runs its handler.
serves_seven : SerialRun quiet direct 0 fresh calling
unfolding cause receive
serves_seven =
    and_then
      (and_then
        (and_then (and_then at_start (others_use_channels filled empty) (refl, refl))
          (loop_goes_on refl refl) tt)
        (takes_input 7 empty refl refl) tt)
      (call_runs [] 7 [] refl refl) tt

one_at_a_time_example :
    (in_call ≢ crashed) × (((in_call ≡ in_call) × (◌≡◌ {A = ℕ} 1 1)) ⊎ (◌≡◌ {A = ℕ} 1 0))
one_at_a_time_example =
    one_at_a_time quiet direct 0 4 0 root fresh calling new_double_run (inr (λ f. refl))
      serves_seven
