-- ===== src/Httpserver/Serve/Work.antt =====
-- That each step leaves a server less work.
use mostly.Common.{ℕ, ◌+◌, ◌≤◌, ◌<◌, List, Bool, arith, if◌then◌else◌}
use mostly.Httpserver.State.{HttpServer}
use mostly.Httpserver.Serve.{
  shutdown_server, Phase, waiting, at_first, at_others, at_last, over, lost, crashed, Listener,
  absent, not_yet, listening, has_returned, reported, stopped, Event, Serving, start, Actor, Step,
  others_cancel, signal_comes, sees_done, nothing_first, nothing_last, shuts_down, skips_shutdown,
  shutdown_crashes, runs_deferred, deferred_crashes, ends_wait, skips_done, last_crashes,
  https_fails, https_closes, https_reports, https_stops, http_starts, http_fails, http_closes,
  http_reports, http_stops, Run, here, next,
}

-- The steps that are left of each part.
abbrev pub work_phase : Phase → ℕ
work_phase waiting = 4
work_phase at_first = 3
work_phase at_others = 2
work_phase at_last = 1
work_phase over = 0
work_phase lost = 0
work_phase crashed = 0

abbrev pub work_listener : Listener → ℕ
work_listener absent = 0
work_listener not_yet = 4
work_listener listening = 3
work_listener has_returned = 2
work_listener reported = 1
work_listener stopped = 0

abbrev pub work : Serving → ℕ
work p =
    (if p.done then 0 else 1)
    + (work_phase p.phase + (work_listener p.https + work_listener p.http))

module _ (one_closes_both cancel_before_defer : Bool) where
  pub Step-work :
      {p q : Serving} {a : Actor} {es : List Event}
      → Step one_closes_both cancel_before_defer p a es q
      → work q < work p
  unfolding shutdown_server
  Step-work {p} (others_cancel e) = ground arith
  Step-work {p} (signal_comes e) = ground arith
  Step-work {p} (sees_done e d) = ground arith
  Step-work {p} (nothing_first e d) = ground arith
  Step-work {p} (nothing_last e d) = ground arith
  Step-work {p} (shuts_down t e f s) = ground arith
  Step-work {p} (skips_shutdown e f rec) = ground arith
  Step-work {p} (shutdown_crashes e f rec) = ground arith
  Step-work {p} (runs_deferred e f) = ground arith
  Step-work {p} (deferred_crashes e f rec) = ground arith
  Step-work {p} (ends_wait e f) = ground arith
  Step-work {p} (skips_done e f rec) = ground arith
  Step-work {p} (last_crashes e f rec) = ground arith
  Step-work {p} (https_fails e) = ground arith
  Step-work {p} (https_closes e s) = ground arith
  Step-work {p} (https_reports e) = ground arith
  Step-work {p} (https_stops e) = ground arith
  Step-work {p} (http_starts e) = ground arith
  Step-work {p} (http_fails e) = ground arith
  Step-work {p} (http_closes e s) = ground arith
  Step-work {p} (http_reports e) = ground arith
  Step-work {p} (http_stops e) = ground arith

  pub Run-work :
      {p q : Serving} {n : ℕ} {es : List Event}
      → Run one_closes_both cancel_before_defer p n es q
      → n + work q ≤ work p
  Run-work here = omega arith
  Run-work (next _ st rest _) = omega (arith, Step-work st, Run-work rest)

  pub start-work :
      (panics : ℕ → Bool) (others_panic recovers : Bool) (s : HttpServer) (https http : Bool)
      → work (start panics others_panic recovers s https http) ≤ 12
  unfolding start
  start-work panics others_panic recovers s https http = ground arith
