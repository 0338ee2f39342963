-- ===== src/Httpserver/Routes.antt =====
-- httpserver/httpserver.go: New, the middlewares and the multiplexer below them, and the handler for
-- "/".
pub mod Laws
use mostly.Common.{
  ℕ, List, [], ◌∷◌, Bool, true, false, not, Option, none, some, ◌==◌, if◌then◌else◌,
}
use mostly.Cancellable.Context.{Store}
use mostly.Superchan.State.{Outcome, ok, panic, ctx}
use mostly.Superchan.Main as Main
use mostly.Httpserver.State.{
  Handler, from_mux, func, wrapped, Middleware, Deferred, Root, base_handler, HttpServer, World,
  HttpPanic, no_ctx, root_taken, no_handler_set, nil_middleware, already_set, cannot_swap,
  of_superchan, Ran, returned, panicked, default_not_found, buildserver,
}

-- http.DefaultServeMux.
abbrev pub default_serve_mux : ℕ
default_serve_mux = 0

-- `mux.Handle("/", …)`, where nothing stands there yet.
abbrev pub put_root : ℕ → (ℕ → Option Root) → ℕ → Option Root
put_root mux roots n = if n == mux then some base_handler else roots n

-- New makes a server, with whether a goroutine waits for its signals, or it panics.
pub data Made : Type 0 where
  made : World → Bool → Made
  failed : HttpPanic → Made

abbrev pub mux_of : Option ℕ → ℕ
mux_of none = default_serve_mux
mux_of (some m) = m

-- The composite literal of New.
unfoldable pub new_server : ℕ → ℕ → List ℕ → Main.World Deferred → HttpServer
unfolding buildserver
new_server idle_timeout mux signals w = record {
  server = buildserver idle_timeout (ctx w.chan) (some (from_mux mux));
  chan = w.chan;
  serve_mux = mux;
  base_url = [];
  entrypoint = none;
  home_handler = none;
  not_found_handler = some default_not_found;
  signals_handled = signals;
  shutdown_func1 = none;
  shutdown_func = none;
  refresh_func = none;
}

-- `roots` and `store` are as New finds them, `idle_timeout` and `chanbufsize` the package variables.
unfoldable pub new : ℕ → ℕ → Option ℕ → Option ℕ → List ℕ → (ℕ → Option Root) → Store → Made
unfolding new_server
new chanbufsize idle_timeout none routes signals roots store = failed no_ctx
new chanbufsize idle_timeout (some parent) routes signals roots store =
    elim (Main.new_main {F = Deferred} chanbufsize (some parent) signals store) [
      | panic p ↦ failed (of_superchan p)
      | ok (w, started) ↦ elim (roots (mux_of routes)) [
        | some r ↦ failed root_taken
        | none ↦
            made
              (record {
                self = new_server idle_timeout (mux_of routes) signals w;
                roots = put_root (mux_of routes) roots;
                store = w.store;
              })
              started
      ]
    ]

abbrev pub with_handler : Option Handler → HttpServer → HttpServer
with_handler h s = record s { server = record s.server { handler = h } }

-- The middlewares before a nil one stay.
unfoldable pub insert_loop : List (Option Middleware) → HttpServer → Ran HttpServer
insert_loop [] s = returned s
insert_loop (none ∷ ms) s = panicked nil_middleware s
insert_loop (some m ∷ ms) s = insert_loop ms (with_handler (m s.server.handler) s)

unfoldable pub insert_middleware : List (Option Middleware) → HttpServer → Ran HttpServer
unfolding insert_loop
insert_middleware ms s = elim s.server.handler [
  | none ↦ panicked no_handler_set s
  | some h ↦ insert_loop ms s
]

unfoldable pub set_entry_middleware : Option Middleware → HttpServer → Ran HttpServer
set_entry_middleware entry s = elim s.entrypoint [
  | some m ↦ panicked already_set s
  | none ↦ returned (record s { entrypoint = entry })
]

-- The entry middleware, as ListenAndServeAll puts it on top and forgets it.
unfoldable pub apply_entry : HttpServer → HttpServer
apply_entry s = elim s.entrypoint [
  | none ↦ s
  | some m ↦ record (with_handler (m s.server.handler) s) { entrypoint = none }
]

-- Whether a handler is the pointer to a multiplexer.
abbrev pub is_mux : Option Handler → ℕ → Bool
is_mux none n = false
is_mux (some (from_mux m)) n = m == n
is_mux (some (func f)) n = false
is_mux (some (wrapped k h)) n = false

unfoldable pub swap_serve_mux : ℕ → World → Ran World
swap_serve_mux mux w =
    let swapped : HttpServer = record (with_handler (some (from_mux mux)) w.self) {
      serve_mux = mux;
    } in
    if is_mux w.self.server.handler w.self.serve_mux
    then (if mux == w.self.serve_mux then returned w else elim (w.roots mux) [
      | some r ↦ panicked root_taken (record w { self = swapped })
      | none ↦ returned (record w { self = swapped; roots = put_root mux w.roots })
    ])
    else panicked cannot_swap w

-- What newbasehandler's function calls for a request, by whether its path is "/". It reads the fields
-- when the request comes; `none` is the panic of a nil handler.
unfoldable pub base_handler_call : HttpServer → Bool → Option ℕ
base_handler_call s is_root = elim s.home_handler [
  | none ↦ s.not_found_handler
  | some home ↦ if is_root then some home else s.not_found_handler
]

-- NewDefault, where `log` is log.Default(), for SIGHUP, SIGINT and SIGTERM.
unfoldable pub new_default : ℕ → ℕ → ℕ → ℕ → (ℕ → Option Root) → Store → Made
unfolding new
new_default chanbufsize idle_timeout background log roots store =
    elim (new chanbufsize idle_timeout (some background) (some default_serve_mux) (1 ∷ 2 ∷ 15 ∷ [])
      roots store) [
        | failed p ↦ failed p
        | made w started ↦
            let server = record w.self.server { error_log = some log } in
            made (record w { self = record w.self { server = server } }) started
      ]
