-- ===== src/Httpserver/Serve.antt =====
-- httpserver/httpserver.go: what runs behind ListenAndServeAll's checks. serveHttps, serveHttp, the two
-- closures that listenAndServe defers, ShutdownServer, and the wait for them all. The deferred
-- functions run as Superchan.Rundeferred has it: the first, the others, the last, each behind the
-- end of those before. Nobody else calls ShutdownServer meanwhile.
pub mod Invariant
pub mod Laws
pub mod Work
pub mod Ends
use mostly.Common.{
  ℕ, suc, ◌+◌, ◌-◌, ◌≡◌, ◌≢◌, ◌⊎◌, List, [], ◌∷◌, ◌++◌, Bool, true, false, ◌||◌, Option, none, some,
  ◌==◌, if◌then◌else◌,
}
use mostly.Httpserver.State.{
  Server, HttpServer, Ran, Deferred, shut_down, stop_waiting, returned, panicked, already_shutdown,
  shutdown_mark,
}

-- ShutdownServer: the mark, and Shutdown, whose timeout ends it in any case.
unfoldable pub shutdown_server : Server → Ran Server
shutdown_server s =
    if s.idle_timeout == shutdown_mark
    then panicked already_shutdown s
    else returned (record s { idle_timeout = shutdown_mark; in_shutdown = true })

-- Where rundeferred is: not called, at the function deferred first, at the others, at the one deferred
-- last, or done; done without a call of `wg.Done()`, which a recovered panic has skipped; or in a
-- panic that nothing recovers, which ends the program.
pub data Phase : Type 0 where
  waiting at_first at_others at_last over lost crashed : Phase

-- Where it is behind a deferred function that has returned, and behind one that has panicked.
abbrev pub behind : Phase → Phase
behind at_first = at_others
behind at_last = over
behind ph = ph

abbrev pub behind_panic : Phase → Phase
behind_panic at_first = at_others
behind_panic at_last = lost
behind_panic ph = ph

-- A listener and the goroutine around it: not started for lack of an address, not started yet, in
-- ListenAndServe, behind it, behind the Cancel that is deferred, and behind `wg.Done()`.
pub data Listener : Type 0 where
  absent not_yet listening has_returned reported stopped : Listener

-- What the server promises about its shutdown can be seen by these: the function of DeferFirst,
-- Shutdown, the deferred functions, the function of DeferLast.
pub data Event : Type 0 where
  called_before called_after : ℕ → Event
  server_shut deferred_called : Event

pub record Serving : Type 0 where
  pub server : Server
  -- `s.Err() != nil`.
  pub done : Bool
  pub phase : Phase
  pub https : Listener
  pub http : Listener
  -- The counter of the WaitGroup.
  pub wg : ℕ
  pub func1 : Option ℕ
  pub func : Option ℕ
  -- The functions that the superchan holds as its first and its last.
  pub first : Option Deferred
  pub last : Option Deferred
  -- Which functions of the user panic, whether another deferred function does, and UseGoroutineDefer,
  -- with which rundeferred recovers a panic.
  pub panics : ℕ → Bool
  pub others_panic : Bool
  pub recovers : Bool

-- listenAndServe when it has started https and sleeps.
unfoldable pub start : (ℕ → Bool) → Bool → Bool → HttpServer → Bool → Bool → Serving
start panics others_panic recovers s with_https with_http = record {
  server = s.server;
  done = false;
  phase = waiting;
  https = if with_https then listening else absent;
  http = if with_http then not_yet else absent;
  wg = if with_https then 2 else 1;
  func1 = s.shutdown_func1;
  func = s.shutdown_func;
  first = s.chan.deferfirst;
  last = s.chan.deferlast;
  panics = panics;
  others_panic = others_panic;
  recovers = recovers;
}

-- `if f != nil { f() }` panics.
abbrev pub fails : (ℕ → Bool) → Option ℕ → Bool
fails panics none = false
fails panics (some f) = panics f

abbrev pub before_events : Option ℕ → List Event
before_events none = []
before_events (some f) = called_before f ∷ []

abbrev pub after_events : Option ℕ → List Event
after_events none = []
after_events (some f) = called_after f ∷ []

-- The deferred function that rundeferred is at.
abbrev pub IsDue : Serving → Deferred → Type 0
IsDue p f = ((p.phase ≡ at_first) × (p.first ≡ some f)) ⊎ ((p.phase ≡ at_last) × (p.last ≡ some f))

-- Steps that the program comes to by itself, and those that wait for others: a cancel, a signal, or
-- the failure of a listener.
pub data Actor : Type 0 where
  program outside : Actor

-- The variables OneClosesBoth and CancelBeforeDefer. Without the latter the Cancel behind the
-- deferred functions is one of the steps from outside.
pub data Step (one_closes_both cancel_before_defer : Bool) (p : Serving)
    : Actor → List Event → Serving → Type 0 where
  others_cancel :
      p.done ≡ false
      → Step one_closes_both cancel_before_defer p outside [] (record p { done = true })
  signal_comes :
      p.phase ≡ waiting
      → Step one_closes_both cancel_before_defer p outside []
          (record p { done = cancel_before_defer || p.done; phase = at_first })
  sees_done :
      p.phase ≡ waiting
      → p.done ≡ true
      → Step one_closes_both cancel_before_defer p program [] (record p { phase = at_first })
  nothing_first :
      p.phase ≡ at_first
      → p.first ≡ none
      → Step one_closes_both cancel_before_defer p program [] (record p { phase = at_others })
  nothing_last :
      p.phase ≡ at_last
      → p.last ≡ none
      → Step one_closes_both cancel_before_defer p program [] (record p { phase = over })
  shuts_down :
      (t : Server)
      → IsDue p shut_down
      → fails p.panics p.func1 ≡ false
      → shutdown_server p.server ≡ returned t
      → Step one_closes_both cancel_before_defer p program
          (before_events p.func1 ++ server_shut ∷ [])
          (record p { server = t; phase = behind p.phase })
  skips_shutdown :
      IsDue p shut_down
      → fails p.panics p.func1 ≡ true
      → p.recovers ≡ true
      → Step one_closes_both cancel_before_defer p program
          (before_events p.func1)
          (record p { phase = behind_panic p.phase })
  shutdown_crashes :
      IsDue p shut_down
      → fails p.panics p.func1 ≡ true
      → p.recovers ≡ false
      → Step one_closes_both cancel_before_defer p program
          (before_events p.func1)
          (record p { phase = crashed })
  runs_deferred :
      p.phase ≡ at_others
      → (p.others_panic ≡ false) ⊎ (p.recovers ≡ true)
      → Step one_closes_both cancel_before_defer p program
          (deferred_called ∷ [])
          (record p { phase = at_last })
  deferred_crashes :
      p.phase ≡ at_others
      → p.others_panic ≡ true
      → p.recovers ≡ false
      → Step one_closes_both cancel_before_defer p program
          (deferred_called ∷ [])
          (record p { phase = crashed })
  ends_wait :
      IsDue p stop_waiting
      → fails p.panics p.func ≡ false
      → Step one_closes_both cancel_before_defer p program
          (after_events p.func)
          (record p { phase = behind p.phase; wg = p.wg - 1 })
  skips_done :
      IsDue p stop_waiting
      → fails p.panics p.func ≡ true
      → p.recovers ≡ true
      → Step one_closes_both cancel_before_defer p program
          (after_events p.func)
          (record p { phase = behind_panic p.phase })
  last_crashes :
      IsDue p stop_waiting
      → fails p.panics p.func ≡ true
      → p.recovers ≡ false
      → Step one_closes_both cancel_before_defer p program
          (after_events p.func)
          (record p { phase = crashed })
  https_fails :
      p.https ≡ listening
      → Step one_closes_both cancel_before_defer p outside [] (record p { https = has_returned })
  https_closes :
      p.https ≡ listening
      → p.server.in_shutdown ≡ true
      → Step one_closes_both cancel_before_defer p program [] (record p { https = has_returned })
  https_reports :
      p.https ≡ has_returned
      → Step one_closes_both cancel_before_defer p program []
          (record p { https = reported; done = one_closes_both || p.done })
  https_stops :
      p.https ≡ reported
      → Step one_closes_both cancel_before_defer p program []
          (record p { https = stopped; wg = p.wg - 1 })
  http_starts :
      p.http ≡ not_yet
      → Step one_closes_both cancel_before_defer p program []
          (record p { http = listening; wg = p.wg + 1 })
  http_fails :
      p.http ≡ listening
      → Step one_closes_both cancel_before_defer p outside [] (record p { http = has_returned })
  http_closes :
      p.http ≡ listening
      → p.server.in_shutdown ≡ true
      → Step one_closes_both cancel_before_defer p program [] (record p { http = has_returned })
  http_reports :
      p.http ≡ has_returned
      → Step one_closes_both cancel_before_defer p program []
          (record p { http = reported; done = one_closes_both || p.done })
  http_stops :
      p.http ≡ reported
      → Step one_closes_both cancel_before_defer p program []
          (record p { http = stopped; wg = p.wg - 1 })

-- A run by its number of steps, with its events. A program that has crashed takes no further step.
pub data Run (one_closes_both cancel_before_defer : Bool)
    : Serving → ℕ → List Event → Serving → Type 0 where
  here : {p : Serving} → Run one_closes_both cancel_before_defer p 0 [] p
  next :
      {p q r : Serving} {a : Actor} {n : ℕ} {es fs all : List Event}
      → p.phase ≢ crashed
      → Step one_closes_both cancel_before_defer p a es q
      → Run one_closes_both cancel_before_defer q n fs r
      → all ≡ es ++ fs
      → Run one_closes_both cancel_before_defer p (suc n) all r

-- The wait of listenAndServe is over.
abbrev pub HasReturned : Serving → Type 0
HasReturned p = (p.http ≢ not_yet) × (p.wg ≡ 0)
