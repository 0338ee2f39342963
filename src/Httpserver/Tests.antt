-- ===== src/Httpserver/Tests.antt =====
-- A server from New on, through a middleware, a run of ListenAndServeAll and a Refresh.
use mostly.Common.{
  Bool, ℕ, ◌≡◌, ◌↔◌, ◌⊎◌, refl, List, [], ◌∷◌, true, false, Option, none, some, arith, ◌==◌,
  if◌then◌else◌,
}
use mostly.Cancellable.Context.{Err, canceled, custom, Store, cause, cancel}
use mostly.Cancellable.Handle.{call_cancel}
use mostly.Httpserver.Changes.{here, then_calls, sets_home, Changes-IsWellFormed_of_new}
use mostly.Httpserver.Invariant.{IsWellFormed}
use mostly.Httpserver.Listen.{listen_and_serve_all, serving}
use mostly.Httpserver.Listen.Laws.{Acceptable, armed, listen_and_serve_all_iff}
use mostly.Httpserver.Refresh.{refresh, rebuilt, call_refresh_func}
use mostly.Httpserver.Refresh.Laws.{refresh_error}
use mostly.Httpserver.Routes.{
  made, failed, put_root, new_server, new, base_handler_call, apply_entry,
}
use mostly.Httpserver.State.{
  shut_down, stop_waiting, user_func, Deferred, Root, World, root_taken, returned, buildserver,
  set_home_handler,
}
use mostly.Superchan.Goroutines.{Event, began, returned}
use mostly.Superchan.State.{Config, Superchan, has_err}
use mostly.Superchan.Main as Main

abbrev pub root : Store
root = record { parent = none; own = none } ∷ []

abbrev two : Store
two = record { parent = some 0; own = none } ∷ root

abbrev ended : Store
ended = record { parent = some 0; own = some canceled } ∷ root

abbrev chan1 : Superchan Deferred ℕ
chan1 = record {
  chan = record {
    handle = record { context = 1; cancel_func = some 1 };
    ch = record { buf = []; cap = 4; closed = false };
  };
  deferfuncs = some [];
  deferlast = none;
  deferfirst = none;
}

abbrev pub no_roots : ℕ → Option Root
no_roots n = none

-- What New makes with the default multiplexer and the signal 2.
abbrev pub fresh : World
fresh = record {
  self = new_server 1000 0 (2 ∷ []) (record { chan = chan1; store = two });
  roots = put_root 0 no_roots;
  store = two;
}

-- The same when its context is done.
abbrev dead : World
dead = record fresh { store = ended }

pub new_run : new 4 1000 (some 0) none (2 ∷ []) no_roots root ≡ made fresh true
unfolding new new_server cause Main.new_main
new_run = refl

-- A second server on the default multiplexer.
new_again : new 4 1000 (some 0) none (2 ∷ []) fresh.roots root ≡ failed root_taken
unfolding new new_server Main.new_main cause
new_again = refl

-- Only the home handler sees "/".
home_run :
    (base_handler_call (set_home_handler (some 8) fresh.self) true ≡ some 8)
    × (base_handler_call (set_home_handler (some 8) fresh.self) false ≡ some 404)
unfolding base_handler_call set_home_handler new_server
home_run = (refl, refl)

-- Every file is there but 9.
abbrev pub stat : List ℕ → Option ℕ
stat [] = some 2
stat (c ∷ s) = if c == 9 then some 2 else none

abbrev pub http_addr : List ℕ
http_addr = b':' ∷ []

listen_and_serve_all_iff_example :
    ((listen_and_serve_all stat http_addr http_addr (3 ∷ []) (9 ∷ []) fresh
        ≡ serving (armed (record fresh { self = apply_entry fresh.self })) true true)
      ↔ Acceptable stat http_addr http_addr (3 ∷ []) (9 ∷ []))
    × ((http_addr ≡ [])
        ⊎ (listen_and_serve_all stat [] http_addr [] [] fresh
            ≡ serving (armed (record fresh { self = apply_entry fresh.self })) false false))
unfolding new_server cause
listen_and_serve_all_iff_example =
    listen_and_serve_all_iff stat http_addr http_addr (3 ∷ []) (9 ∷ []) fresh refl refl refl

-- A refresh function that fails.
abbrev pub run : ℕ → World → World × Option Err
run f w = (w, some (custom f))

abbrev pub wrap_err : Err → Err
wrap_err e = custom 70

abbrev with_refresh : World
with_refresh = record dead { self = record dead.self { refresh_func = some 7 } }

IsWellFormed-with_refresh : IsWellFormed with_refresh
unfolding new_server buildserver
IsWellFormed-with_refresh = record {
  rooted = refl;
  rests = refl;
  entry_keeps = tt;
  requests_inherit = refl;
  own_cancel = refl;
  in_store = omega arith;
}

-- The server that the refresh function finds.
abbrev remade : World
remade =
    rebuilt 2000
      (record {
        chan = record chan1 {
          chan = record chan1.chan { handle = record { context = 2; cancel_func = some 2 } };
        };
        store = record { parent = some 0; own = none } ∷ ended;
      })
      with_refresh

abbrev failed_refresh : World
failed_refresh = record remade {
  store = record { parent = some 0; own = some (custom 70) } ∷ ended;
}

refresh_error_example :
    ((f : ℕ) × (m : Main.World Deferred) × (some 7 ≡ some f)
      × ((run f (rebuilt 2000 m with_refresh)).1 ≡ some (custom 7)))
    × (has_err failed_refresh.self.chan failed_refresh.store ≡ true)
unfolding refresh rebuilt call_refresh_func new_server cause Main.new_main call_cancel cancel
refresh_error_example =
    refresh_error 4 2000 0 run wrap_err none with_refresh failed_refresh true (custom 7)
      (λ f u i. i) IsWellFormed-with_refresh refl

Changes-IsWellFormed_of_new_example :
    IsWellFormed (record fresh { self = set_home_handler (some 8) fresh.self })
unfolding new
Changes-IsWellFormed_of_new_example =
    Changes-IsWellFormed_of_new 4 1000 0 run wrap_err stat (λ f u i. i) 0 none (2 ∷ []) no_roots
      root true new_run (then_calls here (sets_home (some 8)))

abbrev pub quiet : Deferred → Bool
quiet f = false

abbrev pub direct : Config
direct = record { cancel_before_defer = true; use_goroutine_defer = false }

-- A server that serves on http, and whose user has deferred the function 5.
abbrev pub serves : World
serves = armed (record fresh { self = apply_entry fresh.self })

abbrev pub with_func : Superchan Deferred ℕ
with_func = record serves.self.chan { deferfuncs = some (user_func 5 ∷ []) }

abbrev pub all_events : List (Event Deferred)
all_events =
    began shut_down
    ∷ returned shut_down
    ∷ began (user_func 5)
    ∷ returned (user_func 5)
    ∷ began stop_waiting
    ∷ returned stop_waiting
    ∷ []
