-- ===== src/Httpserver/Serve/Invariant.antt =====
-- What stays true while a server listens.
use mostly.Common.{ℕ, ◌+◌, ◌≡◌, ◌≢◌, ◌⊎◌, sym, ap, List, Bool, true, false, Option, some, arith}
use mostly.Httpserver.State.{Server, HttpServer, World, shut_down, stop_waiting, shutdown_mark}
use mostly.Httpserver.Listen.{listen_and_serve_all, serving}
use mostly.Httpserver.Listen.Laws.{serving_inv, begin_serving-armed}
use mostly.Httpserver.Routes.{apply_entry}
use mostly.Httpserver.Serve.{
  fails, shutdown_server, Phase, waiting, at_first, at_others, at_last, over, lost, crashed,
  Listener, absent, not_yet, listening, has_returned, reported, stopped, Event, Serving, start,
  Actor, Step, others_cancel, signal_comes, sees_done, nothing_first, nothing_last, shuts_down,
  skips_shutdown, shutdown_crashes, runs_deferred, deferred_crashes, ends_wait, skips_done,
  last_crashes, https_fails, https_closes, https_reports, https_stops, http_starts, http_fails,
  http_closes, http_reports, http_stops, Run, here, next,
}

-- What a listener and the function deferred last have in the counter.
abbrev pub holds : Listener → ℕ
holds absent = 0
holds not_yet = 0
holds listening = 1
holds has_returned = 1
holds reported = 1
holds stopped = 0

abbrev pub holds_last : Phase → ℕ
holds_last over = 0
holds_last waiting = 1
holds_last at_first = 1
holds_last at_others = 1
holds_last at_last = 1
holds_last lost = 1
holds_last crashed = 1

-- Shutdown was called, or the function before it has panicked.
abbrev pub IsShut : Bool → Server → Type 0
IsShut failed s = (s.in_shutdown ≡ true) ⊎ (failed ≡ true)

abbrev pub ShutWhere : Phase → Bool → Server → Type 0
ShutWhere waiting failed s = s.idle_timeout ≢ shutdown_mark
ShutWhere at_first failed s = s.idle_timeout ≢ shutdown_mark
ShutWhere at_others failed s = IsShut failed s
ShutWhere at_last failed s = IsShut failed s
ShutWhere over failed s = IsShut failed s
ShutWhere lost failed s = IsShut failed s
ShutWhere crashed failed s = Unit

abbrev pub WokenWhere : Phase → Bool → Type 0
WokenWhere waiting done = Unit
WokenWhere at_first done = done ≡ true
WokenWhere at_others done = done ≡ true
WokenWhere at_last done = done ≡ true
WokenWhere over done = done ≡ true
WokenWhere lost done = done ≡ true
WokenWhere crashed done = done ≡ true

-- https is started before the wait.
abbrev pub IsStarted : Listener → Type 0
IsStarted l = l ≢ not_yet

pub record IsServing (cancel_before_defer : Bool) (p : Serving) : Type 0 where
  pub counted : p.wg ≡ holds_last p.phase + (holds p.https + holds p.http)
  pub shut : ShutWhere p.phase (fails p.panics p.func1) p.server
  pub ended : (p.phase ≡ over) → fails p.panics p.func ≡ false
  pub first_is : p.first ≡ some shut_down
  pub last_is : p.last ≡ some stop_waiting
  pub woken : (cancel_before_defer ≡ false) ⊎ WokenWhere p.phase p.done
  pub started : IsStarted p.https

-- A listener that was never started for lack of an address, or whose goroutine is done.
abbrev pub IsClosed : Listener → Type 0
IsClosed l = (l ≡ absent) ⊎ (l ≡ stopped)

-- What listenAndServe has deferred first and last when it goes on to serve.
pub serving_closures :
    (stat : List ℕ → Option ℕ) (http_addr https_addr cert key : List ℕ) (w v : World)
    (https http : Bool)
    → listen_and_serve_all stat http_addr https_addr cert key w ≡ serving v https http
    → (v.self.chan.deferfirst ≡ some shut_down) × (v.self.chan.deferlast ≡ some stop_waiting)
serving_closures stat http_addr https_addr cert key w v https http served =
    let (_, began_serving) = serving_inv stat http_addr https_addr cert key w v https http served in
    let (_, _, is) =
      begin_serving-armed http_addr https_addr (record w { self = apply_entry w.self }) v
        began_serving in
    (
      ap (λ (x : World). x.self.chan.deferfirst) (sym is),
      ap (λ (x : World). x.self.chan.deferlast) (sym is),
    )

module _ (one_closes_both cancel_before_defer : Bool) where
  pub Step-IsServing :
      {p q : Serving} {a : Actor} {es : List Event}
      → Step one_closes_both cancel_before_defer p a es q
      → IsServing cancel_before_defer p
      → IsServing cancel_before_defer q
  unfolding shutdown_server
  Step-IsServing {p} (others_cancel e) i = ground arith
  Step-IsServing {p} (signal_comes e) i = ground arith
  Step-IsServing {p} (sees_done e d) i = ground arith
  Step-IsServing {p} (nothing_first e d) i = ground arith
  Step-IsServing {p} (nothing_last e d) i = ground arith
  Step-IsServing {p} (shuts_down t e f s) i = ground arith
  Step-IsServing {p} (skips_shutdown e f rec) i = ground arith
  Step-IsServing {p} (shutdown_crashes e f rec) i = ground arith
  Step-IsServing {p} (runs_deferred e f) i = ground arith
  Step-IsServing {p} (deferred_crashes e f rec) i = ground arith
  Step-IsServing {p} (ends_wait e f) i = ground arith
  Step-IsServing {p} (skips_done e f rec) i = ground arith
  Step-IsServing {p} (last_crashes e f rec) i = ground arith
  Step-IsServing {p} (https_fails e) i = ground arith
  Step-IsServing {p} (https_closes e s) i = ground arith
  Step-IsServing {p} (https_reports e) i = ground arith
  Step-IsServing {p} (https_stops e) i = ground arith
  Step-IsServing {p} (http_starts e) i = ground arith
  Step-IsServing {p} (http_fails e) i = ground arith
  Step-IsServing {p} (http_closes e s) i = ground arith
  Step-IsServing {p} (http_reports e) i = ground arith
  Step-IsServing {p} (http_stops e) i = ground arith

  pub Run-IsServing :
      {p q : Serving} {n : ℕ} {es : List Event}
      → Run one_closes_both cancel_before_defer p n es q
      → IsServing cancel_before_defer p
      → IsServing cancel_before_defer q
  Run-IsServing here i = i
  Run-IsServing (next _ st rest _) i = Run-IsServing rest (Step-IsServing st i)

  pub start-IsServing :
      (panics : ℕ → Bool) (others_panic recovers : Bool) (s : HttpServer) (https http : Bool)
      → s.server.idle_timeout ≢ shutdown_mark
      → (s.chan.deferfirst ≡ some shut_down) × (s.chan.deferlast ≡ some stop_waiting)
      → IsServing cancel_before_defer (start panics others_panic recovers s https http)
  unfolding start
  start-IsServing panics others_panic recovers s true true ne set = ground arith
  start-IsServing panics others_panic recovers s true false ne set = ground arith
  start-IsServing panics others_panic recovers s false true ne set = ground arith
  start-IsServing panics others_panic recovers s false false ne set = ground arith
