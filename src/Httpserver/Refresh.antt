-- ===== src/Httpserver/Refresh.antt =====
-- httpserver/httpserver.go: Refresh, which makes a server ready to listen again.
pub mod Laws
use mostly.Common.{ℕ, List, [], ◌∷◌, Bool, true, false, Option, none, some, if◌then◌else◌}
use mostly.Cancellable.Context.{Err, Store}
use mostly.Cancellable.Handle.{call_cancel}
use mostly.Superchan.State.{ok, panic, ctx, has_err}
use mostly.Superchan.Main as Main
use mostly.Httpserver.State.{
  Deferred, HttpServer, World, HttpPanic, nil_cancel, cannot_refresh, of_superchan, buildserver,
  copy_http_server,
}

-- Refresh panics, or it returns its error, with whether NewMain has started its goroutine.
pub data Refreshed : Type 0 where
  refresh_panicked : HttpPanic → World → Refreshed
  came_back : World → Bool → Option Err → Refreshed

-- The assignments of Refresh behind NewMain.
unfoldable pub rebuilt : ℕ → Main.World Deferred → World → World
unfolding buildserver copy_http_server
rebuilt idle_timeout m w = record w {
  self = record w.self {
    chan = m.chan;
    server =
        copy_http_server (buildserver idle_timeout (ctx m.chan) w.self.server.handler)
          w.self.server;
  };
  store = m.store;
}

-- A nil context is context.Background().
abbrev pub parent_of : ℕ → Option ℕ → ℕ
parent_of background none = background
parent_of background (some c) = c

-- `background` is context.Background(), `run` the call of a refresh function, and `wrap` puts
-- "refresh: " in front of an error.
module _ (chanbufsize idle_timeout background : ℕ) (run : ℕ → World → World × Option Err)
    (wrap : Err → Err) where
  unfoldable pub call_refresh_func : World → Bool → Option ℕ → Refreshed
  call_refresh_func v started none = came_back v started none
  call_refresh_func v started (some f) =
      let (u, err) = run f v in
      elim err [
        | none ↦ came_back u started none
        | some e ↦ elim (call_cancel u.self.chan.chan.handle (some (wrap e)) u.store) [
          | none ↦ refresh_panicked nil_cancel u
          | some t ↦ came_back (record u { store = t }) started (some e)
        ]
      ]

  unfoldable pub refresh : Option ℕ → World → Refreshed
  unfolding rebuilt call_refresh_func
  refresh newmainctx w =
      if has_err w.self.chan w.store
      then elim (Main.new_main {F = Deferred} chanbufsize (some (parent_of background newmainctx))
          w.self.signals_handled w.store) [
            | panic p ↦ refresh_panicked (of_superchan p) w
            | ok (m, started) ↦
                call_refresh_func (rebuilt idle_timeout m w) started w.self.refresh_func
          ]
      else refresh_panicked cannot_refresh w
