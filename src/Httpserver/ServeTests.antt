-- ===== src/Httpserver/ServeTests.antt =====
-- A server on http alone: its context is cancelled, and ListenAndServeAll returns.
use mostly.Common.{
  ℕ, ◌≡◌, ◌⊎◌, inl, inr, refl, List, [], ◌∷◌, ◌++◌, true, false, Bool, some, arith, ltb,
}
use mostly.Cancellable.Context.{cause}
use mostly.Superchan.State.{defer_first, defer_last}
use mostly.Httpserver.State.{Server, World, HttpServer, shutdown_mark, shut_down, stop_waiting}
use mostly.Httpserver.Routes.{new_server, apply_entry}
use mostly.Httpserver.Listen.{listen_and_serve_all, begin_serving, check, serving}
use mostly.Httpserver.Tests.{fresh, stat}
use mostly.Httpserver.Serve.{
  at_others, shutdown_server, listening, stopped, over, lost, Event, called_before, called_after,
  server_shut, deferred_called, Serving, start, after_events, fails, Run, here, next, others_cancel,
  sees_done, shuts_down, skips_shutdown, runs_deferred, ends_wait, skips_done, http_starts,
  http_fails, http_closes, http_reports, http_stops, HasReturned,
}
use mostly.Httpserver.Serve.Invariant.{IsClosed}
use mostly.Httpserver.Serve.Laws.{first_events, HasReturned-shut}

abbrev accepted : World
accepted = record fresh {
  self = record fresh.self { shutdown_func1 = some 6; shutdown_func = some 7 };
}

abbrev serves : World
serves = record accepted {
  self = record accepted.self {
    chan = record accepted.self.chan { deferfirst = some shut_down; deferlast = some stop_waiting };
  };
}

goes_on : listen_and_serve_all stat (58 ∷ []) [] [] [] accepted ≡ serving serves false true
unfolding listen_and_serve_all begin_serving check defer_first defer_last apply_entry new_server
    cause
goes_on = refl

abbrev served : HttpServer
served = serves.self

abbrev calm : ℕ → Bool
calm f = false

abbrev starts : (ℕ → Bool) → Serving
starts panics = start panics false true served false true

abbrev shut_server : Server
shut_server = record served.server { idle_timeout = shutdown_mark; in_shutdown = true }

-- When the shutdown has been called and http still listens.
abbrev shut_early : Serving
shut_early = record (starts calm) {
  server = shut_server;
  done = true;
  phase = at_others;
  http = listening;
  wg = 2;
}

abbrev before_all : List Event
before_all = called_before 6 ∷ server_shut ∷ []

abbrev ended : Serving
ended = record shut_early { phase = over; http = stopped; wg = 0 }

ended_run :
    Run true true
      (starts calm)
      9
      (called_before 6 ∷ server_shut ∷ deferred_called ∷ called_after 7 ∷ [])
      ended
unfolding start shutdown_server new_server
ended_run =
    next (λ e. cc e) (http_starts refl)
      (next (λ e. cc e) (others_cancel refl)
        (next (λ e. cc e) (sees_done refl refl)
          (next (λ e. cc e) (shuts_down shut_server (inl (refl, refl)) refl refl)
            (next (λ e. cc e) (http_closes refl refl)
              (next (λ e. cc e) (http_reports refl)
                (next (λ e. cc e) (runs_deferred refl (inl refl))
                  (next (λ e. cc e) (http_stops refl)
                    (next (λ e. cc e) (ends_wait (inr (refl, refl)) refl) here refl) refl)
                  refl)
                refl)
              refl)
            refl)
          refl)
        refl)
      refl

HasReturned-shut_example :
    (called_before 6 ∷ server_shut ∷ deferred_called ∷ called_after 7 ∷ []
      ≡ first_events false (some 6) ++ deferred_called ∷ after_events (some 7))
    × (fails calm (some 7) ≡ false)
    × IsClosed ended.https
    × IsClosed ended.http
    × ((ended.server.in_shutdown ≡ true) ⊎ (fails calm (some 6) ≡ true))
    × ((true ≡ false) ⊎ (ended.done ≡ true))
unfolding new_server start
HasReturned-shut_example =
    HasReturned-shut true true calm false true stat (58 ∷ []) [] [] [] accepted serves false true
      goes_on (λ e. ground arith) ended_run ((λ e. ground arith), refl)

-- A panic of the function given to DeferFirst: no shutdown, and http ends by itself.
abbrev first_panics : ℕ → Bool
first_panics f = ltb f 7

abbrev unshut : Serving
unshut = record (starts first_panics) { done = true; phase = over; http = stopped; wg = 0 }

unshut_run :
    Run true true
      (starts first_panics)
      9
      (called_before 6 ∷ deferred_called ∷ called_after 7 ∷ [])
      unshut
unfolding start new_server
unshut_run =
    next (λ e. cc e) (http_starts refl)
      (next (λ e. cc e) (http_fails refl)
        (next (λ e. cc e) (others_cancel refl)
          (next (λ e. cc e) (sees_done refl refl)
            (next (λ e. cc e) (skips_shutdown (inl (refl, refl)) refl refl)
              (next (λ e. cc e) (runs_deferred refl (inl refl))
                (next (λ e. cc e) (http_reports refl)
                  (next (λ e. cc e) (http_stops refl)
                    (next (λ e. cc e) (ends_wait (inr (refl, refl)) refl) here refl) refl)
                  refl)
                refl)
              refl)
            refl)
          refl)
        refl)
      refl

unshut_returned : HasReturned unshut × (unshut.server.in_shutdown ≡ false)
unfolding start new_server
unshut_returned = (((λ e. ground arith), refl), refl)

-- A panic of the function given to DeferLast: the wait never ends.
abbrev last_panics : ℕ → Bool
last_panics f = ltb 6 f

abbrev stuck : Serving
stuck = record (starts last_panics) {
  server = shut_server;
  done = true;
  phase = lost;
  http = stopped;
  wg = 1;
}

stuck_run :
    Run true true
      (starts last_panics)
      9
      (called_before 6 ∷ server_shut ∷ deferred_called ∷ called_after 7 ∷ [])
      stuck
unfolding start shutdown_server new_server
stuck_run =
    next (λ e. cc e) (http_starts refl)
      (next (λ e. cc e) (http_fails refl)
        (next (λ e. cc e) (others_cancel refl)
          (next (λ e. cc e) (sees_done refl refl)
            (next (λ e. cc e) (shuts_down shut_server (inl (refl, refl)) refl refl)
              (next (λ e. cc e) (runs_deferred refl (inl refl))
                (next (λ e. cc e) (http_reports refl)
                  (next (λ e. cc e) (http_stops refl)
                    (next (λ e. cc e) (skips_done (inr (refl, refl)) refl refl) here refl) refl)
                  refl)
                refl)
              refl)
            refl)
          refl)
        refl)
      refl
