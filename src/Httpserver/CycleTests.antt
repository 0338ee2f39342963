-- ===== src/Httpserver/CycleTests.antt =====
-- A server that serves, ends by a signal, and serves again after a Refresh.
use mostly.Common.{ℕ, ◌≡◌, refl, List, [], ◌∷◌, ◌++◌, map, true, false, none, some, arith}
use mostly.Cancellable.Context.{Err, custom, Store, cause, cancel}
use mostly.Cancellable.Handle.{call_cancel}
use mostly.Cancellable.Chan.{Channel, receive}
use mostly.Superchan.State.{Superchan, clear, defer, is_dead, defer_first, defer_last}
use mostly.Superchan.Goroutines.{Event}
use mostly.Superchan.Goroutines.Barriers.{Stretches}
use mostly.Superchan.Rundeferred.{in_sequence, call_groups, call_each, finished}
use mostly.Superchan.Reader.{with_ch}
use mostly.Superchan.Main as Main
use mostly.Superchan.Main.{
  MainEvent, cancelled, deferred, signal_stopped, chan_closed, MainSignalHandler,
  cancel_then_deferred, set_ch,
}
use mostly.Superchan.Main.Laws.{Order}
use mostly.Httpserver.State.{
  Deferred, shut_down, stop_waiting, user_func, World, Server, shutdown_mark,
}
use mostly.Httpserver.Routes.{apply_entry, new_server}
use mostly.Httpserver.Listen.{listen_and_serve_all, serving, begin_serving, check}
use mostly.Httpserver.Listen.Laws.{armed}
use mostly.Httpserver.Serve.{shutdown_server}
use mostly.Httpserver.Order.{none_yet, then_defer}
use mostly.Httpserver.Refresh.{refresh, came_back}
use mostly.Httpserver.Invariant.{IsWellFormed}
use mostly.Httpserver.Changes.{here, Changes-IsWellFormed_of_new}
use mostly.Httpserver.Cycle.{serves_again}
use mostly.Httpserver.Stopped.{stopped_server}
use mostly.Httpserver.Tests.{
  fresh, stat, http_addr, run, wrap_err, quiet, direct, serves, with_func, all_events, no_roots,
  root, new_run,
}

IsWellFormed-fresh : IsWellFormed fresh
IsWellFormed-fresh =
    Changes-IsWellFormed_of_new 4 1000 0 run wrap_err stat (λ f u i. i) 0 none (2 ∷ []) no_roots
      root true new_run here

abbrev signal_error : ℕ → Err
signal_error sig = custom sig

abbrev one_signal : Channel ℕ
one_signal = record { buf = 2 ∷ []; cap = 4; closed = false }

abbrev drained : Channel ℕ
drained = record { buf = []; cap = 4; closed = false }

abbrev start : Main.World Deferred
start = record { chan = with_ch with_func one_signal; store = fresh.store }

abbrev cleared : Superchan Deferred ℕ
cleared = clear (with_ch with_func drained)

abbrev after_signal : Store
after_signal = record { parent = some 0; own = some (custom 2) } ∷ root

abbrev ended : Main.World Deferred
ended = record { chan = set_ch cleared true; store = after_signal }

abbrev seen : List (MainEvent Deferred)
seen = cancelled (custom 2) ∷ map deferred all_events ++ signal_stopped ∷ chan_closed ∷ []

handles : MainSignalHandler quiet direct signal_error 0 start seen ended finished
unfolding clear new_server receive call_cancel cancel cause is_dead call_groups call_each
    apply_entry
handles =
    cancel_then_deferred 2 all_events cleared after_signal [] refl refl refl
      (in_sequence refl refl refl)

abbrev shut_server : Server
shut_server = record serves.self.server { idle_timeout = shutdown_mark; in_shutdown = true }

serves_again_example :
    ((fs : List (Event Deferred)) × Stretches quiet
        ((shut_down ∷ []) ∷ (user_func 5 ∷ []) ∷ (stop_waiting ∷ []) ∷ [])
        fs
      × Order quiet direct signal_error 0 start [] fs seen after_signal)
    × (is_dead ended.chan ≡ true)
    × ((r : World) × (refresh 4 2000 0 run wrap_err none (stopped_server serves shut_server ended)
          ≡ came_back r true none)
        × IsWellFormed r
        × (r.self.server.handler ≡ serves.self.server.handler)
        × (r.self.server.idle_timeout ≡ 2000)
        × (listen_and_serve_all stat http_addr [] [] [] r ≡ serving (armed r) false true))
unfolding handles listen_and_serve_all new_server cause begin_serving defer_first defer_last check
    apply_entry is_dead defer shutdown_server
serves_again_example =
    serves_again 4 2000 0 run wrap_err stat quiet direct signal_error 0 (λ f u i. i) fresh serves
      http_addr [] [] [] false true 2 [] with_func one_signal fresh.store seen ended shut_server
      none IsWellFormed-fresh refl refl refl
      (then_defer (user_func 5 ∷ []) fresh.store none_yet refl) (omega arith) handles refl refl
