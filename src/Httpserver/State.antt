-- ===== src/Httpserver/State.antt =====
-- httpserver/httpserver.go: the types HttpServer and Config, buildserver, copyHttpServer and the
-- setters. A multiplexer is a number, and so is a function or a pointer that the model does not look
-- into.
use mostly.Common.{ℕ, List, [], ◌∷◌, ◌++◌, Bool, false, Option, none, some}
use mostly.Cancellable.Context.{Store}
use mostly.Superchan.State.{Superchan, Panic}

-- A handler: a multiplexer, a function of the user, or what a middleware made of another handler.
pub data Handler : Type 0 where
  from_mux : ℕ → Handler
  func : ℕ → Handler
  wrapped : ℕ → Handler → Handler

-- `func(http.Handler) http.Handler`; a nil handler is `none`.
abbrev pub Middleware : Type 0
Middleware = Option Handler → Option Handler

-- What httpserver defers on its superchan: functions of the user, and the two closures of
-- listenAndServe.
pub data Deferred : Type 0 where
  user_func : ℕ → Deferred
  shut_down stop_waiting : Deferred

-- The fields of http.Server that the code sets, and of its own state the functions for OnShutdown and
-- whether Shutdown was called. Times are in nanoseconds.
pub record Server : Type 0 where
  pub addr : List ℕ
  pub handler : Option Handler
  pub read_timeout : ℕ
  pub read_header_timeout : ℕ
  pub write_timeout : ℕ
  pub idle_timeout : ℕ
  pub max_header_bytes : ℕ
  pub conn_context : Option ℕ
  pub conn_state : Option ℕ
  -- The context of basectxfn, which requests inherit.
  pub base_context : ℕ
  pub tls_config : Option ℕ
  pub disable_general_options_handler : Bool
  pub error_log : Option ℕ
  pub tls_next_proto : Option ℕ
  pub on_shutdown : List ℕ
  pub in_shutdown : Bool

-- What stands at "/" of a multiplexer: the home and not-found handler of the server, or another.
pub data Root : Type 0 where
  base_handler other_root : Root

pub record HttpServer : Type 0 where
  pub server : Server
  pub chan : Superchan Deferred ℕ
  pub serve_mux : ℕ
  pub base_url : List ℕ
  pub entrypoint : Option Middleware
  pub home_handler : Option ℕ
  pub not_found_handler : Option ℕ
  pub signals_handled : List ℕ
  -- Called before and after the shutdown of the server.
  pub shutdown_func1 : Option ℕ
  pub shutdown_func : Option ℕ
  -- What the function does is a parameter of Refresh.
  pub refresh_func : Option ℕ

-- The server with what it shares with others: "/" of each multiplexer, and the contexts.
pub record World : Type 0 where
  pub self : HttpServer
  pub roots : ℕ → Option Root
  pub store : Store

pub data HttpPanic : Type 0 where
  no_ctx nil_cancel root_taken no_handler_set nil_middleware already_set : HttpPanic
  cannot_swap already_shutdown no_listen_addresses cannot_refresh : HttpPanic
  of_superchan : Panic → HttpPanic

-- A call returns, or it panics, with the state as it is then.
pub data Ran (S : Type 0) : Type 0 where
  returned : S → Ran S
  panicked : HttpPanic → S → Ran S

-- connctxfun, as the ConnContext of a server.
abbrev pub connctxfun : ℕ
connctxfun = 1

-- DefaultNotFoundHandler.
abbrev pub default_not_found : ℕ
default_not_found = 404

-- The variable IdleTimeout, by its default.
abbrev pub default_idle_timeout : ℕ
default_idle_timeout = 2000000000

-- The number by which ShutdownServer knows a server that it has shut down.
abbrev pub shutdown_mark : ℕ
shutdown_mark = 123123

-- `idle_timeout` is the variable IdleTimeout.
unfoldable pub buildserver : ℕ → ℕ → Option Handler → Server
buildserver idle_timeout basectx routes = record {
  addr = [];
  handler = routes;
  read_timeout = 5000000000;
  read_header_timeout = 5000000000;
  write_timeout = 10000000000;
  idle_timeout = idle_timeout;
  max_header_bytes = 1048576;
  conn_context = some connctxfun;
  conn_state = none;
  base_context = basectx;
  tls_config = none;
  disable_general_options_handler = false;
  error_log = none;
  tls_next_proto = none;
  on_shutdown = [];
  in_shutdown = false;
}

-- The first server with fields of the second.
unfoldable pub copy_http_server : Server → Server → Server
copy_http_server s s2 = record s {
  addr = s2.addr;
  read_timeout = s2.read_timeout;
  read_header_timeout = s2.read_header_timeout;
  write_timeout = s2.write_timeout;
  max_header_bytes = s2.max_header_bytes;
  conn_context = s2.conn_context;
  conn_state = s2.conn_state;
  tls_config = s2.tls_config;
  disable_general_options_handler = s2.disable_general_options_handler;
  error_log = s2.error_log;
  tls_next_proto = s2.tls_next_proto;
}

unfoldable pub set_refresh_func : Option ℕ → HttpServer → HttpServer
set_refresh_func f h = record h { refresh_func = f }

unfoldable pub set_shutdown_func : Option ℕ → HttpServer → HttpServer
set_shutdown_func f h = record h { shutdown_func = f }

-- DeferLast of an HttpServer.
unfoldable pub defer_last_func : Option ℕ → HttpServer → HttpServer
unfolding set_shutdown_func
defer_last_func f h = set_shutdown_func f h

-- DeferFirst of an HttpServer.
unfoldable pub defer_first_func : Option ℕ → HttpServer → HttpServer
defer_first_func f h = record h { shutdown_func1 = f }

unfoldable pub set_home_handler : Option ℕ → HttpServer → HttpServer
set_home_handler f h = record h { home_handler = f }

unfoldable pub set_not_found_handler : Option ℕ → HttpServer → HttpServer
set_not_found_handler f h = record h { not_found_handler = f }

unfoldable pub register_on_shutdown : ℕ → HttpServer → HttpServer
register_on_shutdown f h = record h {
  server = record h.server { on_shutdown = h.server.on_shutdown ++ f ∷ [] };
}
