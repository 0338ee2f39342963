-- ===== src/Httpserver/Changes.antt =====
-- Every sequence of calls on a server, from New on.
use mostly.Common.{
  ℕ, ◌≤◌, ◌<◌, ◌≡◌, refl, ap, sym, ◌∙◌, subst, length, List, Bool, Option, none, some, Option-cases,
  Bool-cases, arith, inl, inr,
}
use mostly.Cancellable.Context.{Err, Store, cancel}
use mostly.Cancellable.Context.Laws.{length-cancel}
use mostly.Cancellable.Handle.{call_cancel}
use mostly.Superchan.State.{Superchan, ctx, has_err}
use mostly.Superchan.State.Laws.{Outcome-cases}
use mostly.Superchan.Main as Main
use mostly.Httpserver.State.{
  Middleware, Deferred, Root, Server, HttpServer, World, returned, set_home_handler,
  set_not_found_handler, set_shutdown_func, defer_first_func, set_refresh_func,
  register_on_shutdown,
}
use mostly.Httpserver.Routes.{
  made, mux_of, put_root, new_server, new, insert_middleware, set_entry_middleware, swap_serve_mux,
}
use mostly.Httpserver.Listen.{listen_and_serve_all, serving}
use mostly.Httpserver.Serve.{shutdown_server}
use mostly.Httpserver.Refresh.{refresh, parent_of, rebuilt, call_refresh_func, came_back}
use mostly.Superchan.Main.Kept.{new_main-own}
use mostly.Httpserver.Invariant.{
  KeepsIfAny, AllKeep, IsWellFormed, insert_middleware-IsWellFormed, swap_serve_mux-IsWellFormed,
  Rests, listen_and_serve_all-IsWellFormed, rebuilt-IsWellFormed,
}

pub shutdown_server-kept :
    (s t : Server)
    → shutdown_server s ≡ returned t
    → (t.handler ≡ s.handler) × (t.base_context ≡ s.base_context)
unfolding shutdown_server
shutdown_server-kept s t is = ground arith

module _ (chanbufsize idle_timeout background : ℕ) (run : ℕ → World → World × Option Err)
    (wrap : Err → Err) (stat : List ℕ → Option ℕ) where
  -- A call that returns, on this server; a cancel of any context by anyone; or what happens otherwise to
  -- its superchan and to contexts, by Defer, SetDeferred or its signal handler, by others and by other
  -- servers: it keeps the context and the cancel function of the superchan, and contexts are made, but
  -- none is removed. `listens` leaves the state in which ListenAndServeAll begins to serve.
  pub data Change (w : World) : World → Type 0 where
    inserts :
        (ms : List (Option Middleware)) (s : HttpServer)
        → AllKeep ms
        → insert_middleware ms w.self ≡ returned s
        → Change w (record w { self = s })
    sets_entry :
        (m : Option Middleware) (s : HttpServer)
        → KeepsIfAny m
        → set_entry_middleware m w.self ≡ returned s
        → Change w (record w { self = s })
    swaps : (mux : ℕ) (v : World) → swap_serve_mux mux w ≡ returned v → Change w v
    sets_home : (f : Option ℕ) → Change w (record w { self = set_home_handler f w.self })
    sets_not_found : (f : Option ℕ) → Change w (record w { self = set_not_found_handler f w.self })
    sets_after : (f : Option ℕ) → Change w (record w { self = set_shutdown_func f w.self })
    sets_before : (f : Option ℕ) → Change w (record w { self = defer_first_func f w.self })
    sets_refresh : (f : Option ℕ) → Change w (record w { self = set_refresh_func f w.self })
    registers : (f : ℕ) → Change w (record w { self = register_on_shutdown f w.self })
    cancels : (id : ℕ) (e : Option Err) → Change w (record w { store = cancel w.store id e })
    shuts_down :
        (t : Server)
        → shutdown_server w.self.server ≡ returned t
        → Change w (record w { self = record w.self { server = t } })
    superchan_moves :
        (c : Superchan Deferred ℕ) (store : Store)
        → c.chan.handle ≡ w.self.chan.chan.handle
        → length w.store ≤ length store
        → Change w (record w { self = record w.self { chan = c }; store = store })
    listens :
        (http_addr https_addr cert key : List ℕ) (v : World) (https http : Bool)
        → listen_and_serve_all stat http_addr https_addr cert key w ≡ serving v https http
        → Change w v
    refreshes :
        (newmainctx : Option ℕ) (v : World) (started : Bool) (err : Option Err)
        → refresh chanbufsize idle_timeout background run wrap newmainctx w
          ≡ came_back v started err
        → Change w v

  pub data Changes (w : World) : World → Type 0 where
    here : Changes w w
    then_calls : {u v : World} → Changes w u → Change u v → Changes w v

  set_entry_middleware-IsWellFormed :
      (m : Option Middleware) (w : World) (s : HttpServer)
      → KeepsIfAny m
      → set_entry_middleware m w.self ≡ returned s
      → IsWellFormed w
      → IsWellFormed (record w { self = s })
  unfolding set_entry_middleware
  set_entry_middleware-IsWellFormed m w s k e v = elim (Option-cases w.self.entrypoint) [
    | inr (f, set) ↦ absurd (ground arith)
    | inl free ↦
        let is : record w.self { entrypoint = m } ≡ s = ground arith in
        subst (λ (x : HttpServer). IsWellFormed (record w { self = x })) is
          (record {
            rooted = v.rooted;
            rests = v.rests;
            entry_keeps = k;
            requests_inherit = v.requests_inherit;
            own_cancel = v.own_cancel;
            in_store = v.in_store;
          })
  ]

  -- What is said of the fields that a call leaves alone.
  same_fields :
      {w : World} (s : HttpServer)
      → IsWellFormed w
      → s.server.handler ≡ w.self.server.handler
      → s.serve_mux ≡ w.self.serve_mux
      → s.entrypoint ≡ w.self.entrypoint
      → s.server.base_context ≡ w.self.server.base_context
      → s.chan ≡ w.self.chan
      → IsWellFormed (record w { self = s })
  same_fields {w} s v h m e b c = record {
    rooted = ground arith;
    rests =
        subst (λ x. Rests x s.serve_mux) (sym h)
          (subst (Rests w.self.server.handler) (sym m) v.rests);
    entry_keeps = subst KeepsIfAny (sym e) v.entry_keeps;
    requests_inherit = ground arith;
    own_cancel = ground arith;
    in_store = ground arith;
  }

  cancel-IsWellFormed :
      (id : ℕ) (e : Option Err) {w : World}
      → IsWellFormed w
      → IsWellFormed (record w { store = cancel w.store id e })
  cancel-IsWellFormed id e {w} v = record {
    rooted = v.rooted;
    rests = v.rests;
    entry_keeps = v.entry_keeps;
    requests_inherit = v.requests_inherit;
    own_cancel = v.own_cancel;
    in_store = omega (arith, length-cancel w.store id e, v.in_store);
  }

  module _ (keeps_run : (f : ℕ) (u : World) → IsWellFormed u → IsWellFormed (run f u).0) where
    call_refresh_func-IsWellFormed :
        (u v : World) (started began : Bool) (f : Option ℕ) (err : Option Err)
        → call_refresh_func chanbufsize idle_timeout background run wrap u started f
          ≡ came_back v began err
        → IsWellFormed u
        → IsWellFormed v
    unfolding call_refresh_func call_cancel
    call_refresh_func-IsWellFormed u v started began none err e k =
        subst IsWellFormed (ground arith) k
    call_refresh_func-IsWellFormed u v started began (some f) err e k =
        let k2 = keeps_run f u k in
        let u2 = (run f u).0 in
        elim (Option-cases (run f u).1) [
          | inl fine ↦ let is : u2 ≡ v = ground arith in subst IsWellFormed is k2
          | inr (x, bad) ↦
              let is : record u2 { store = cancel u2.store (ctx u2.self.chan) (some (wrap x)) }
                  ≡ v =
                ground (arith, k2.own_cancel) in
              subst IsWellFormed is (cancel-IsWellFormed (ctx u2.self.chan) (some (wrap x)) k2)
        ]

    pub refresh-IsWellFormed :
        (newmainctx : Option ℕ) (w v : World) (started : Bool) (err : Option Err)
        → refresh chanbufsize idle_timeout background run wrap newmainctx w
          ≡ came_back v started err
        → IsWellFormed w
        → IsWellFormed v
    unfolding refresh
    refresh-IsWellFormed newmainctx w v started err e k =
        elim (Bool-cases (has_err w.self.chan w.store)) [
          | inr live ↦ absurd (ground arith)
          | inl done ↦
              elim (Outcome-cases (
                Main.new_main {F = Deferred} chanbufsize (some (parent_of background newmainctx))
                  w.self.signals_handled w.store)) [
                    | inr (p, broke) ↦ absurd (ground arith)
                    | inl ((m, began), is) ↦
                        call_refresh_func-IsWellFormed (rebuilt idle_timeout m w) v began started
                          w.self.refresh_func err (ground arith)
                          (rebuilt-IsWellFormed chanbufsize idle_timeout
                            (parent_of background newmainctx) w m began is k)
                  ]
        ]

    Change-IsWellFormed : {w v : World} → Change w v → IsWellFormed w → IsWellFormed v
    unfolding set_home_handler set_not_found_handler set_shutdown_func defer_first_func
        set_refresh_func register_on_shutdown
    Change-IsWellFormed {w} (inserts ms s k e) i = insert_middleware-IsWellFormed ms w s k e i
    Change-IsWellFormed {w} (sets_entry m s k e) i = set_entry_middleware-IsWellFormed m w s k e i
    Change-IsWellFormed {w} (swaps mux v e) i = swap_serve_mux-IsWellFormed mux w v e i
    Change-IsWellFormed {w} (sets_home f) i =
        same_fields (set_home_handler f w.self) i refl refl refl refl refl
    Change-IsWellFormed {w} (sets_not_found f) i =
        same_fields (set_not_found_handler f w.self) i refl refl refl refl refl
    Change-IsWellFormed {w} (sets_after f) i =
        same_fields (set_shutdown_func f w.self) i refl refl refl refl refl
    Change-IsWellFormed {w} (sets_before f) i =
        same_fields (defer_first_func f w.self) i refl refl refl refl refl
    Change-IsWellFormed {w} (sets_refresh f) i =
        same_fields (set_refresh_func f w.self) i refl refl refl refl refl
    Change-IsWellFormed {w} (registers f) i =
        same_fields (register_on_shutdown f w.self) i refl refl refl refl refl
    Change-IsWellFormed {w} (shuts_down t e) i =
        let (handler, base) = shutdown_server-kept w.self.server t e in
        same_fields (record w.self { server = t }) i handler refl refl base refl
    Change-IsWellFormed {w} (superchan_moves c store same more) i = record {
      rooted = i.rooted;
      rests = i.rests;
      entry_keeps = i.entry_keeps;
      requests_inherit = i.requests_inherit ∙ ap (λ h. h.context) (sym same);
      own_cancel =
          ap (λ h. h.cancel_func) same ∙ i.own_cancel ∙ ap (λ h. some h.context) (sym same);
      in_store = subst (λ h. h.context < length store) (sym same) (omega (arith, i.in_store, more));
    }
    Change-IsWellFormed (cancels id e) i = cancel-IsWellFormed id e i
    Change-IsWellFormed {w} (listens http_addr https_addr cert key v https http e) i =
        listen_and_serve_all-IsWellFormed stat http_addr https_addr cert key w v https http e i
    Change-IsWellFormed {w} (refreshes newmainctx v started err e) i =
        refresh-IsWellFormed newmainctx w v started err e i

    Changes-IsWellFormed : {w v : World} → Changes w v → IsWellFormed w → IsWellFormed v
    Changes-IsWellFormed here i = i
    Changes-IsWellFormed (then_calls cs c) i = Change-IsWellFormed c (Changes-IsWellFormed cs i)

    -- A server that New made is well-formed after any sequence of calls on it that return, ShutdownServer
    -- and Refresh included, after ListenAndServeAll begins to serve, after cancels by anyone, and after
    -- what else keeps the context and cancel function of its superchan and removes no context: its
    -- multiplexer has the home and not-found handler at "/", the multiplexer stands below all middlewares, requests inherit the context of the
    -- present superchan, and the superchan cancels that context. This is for middlewares that call the
    -- handler below them, and a refresh function that keeps a server well-formed.
    pub Changes-IsWellFormed_of_new :
        (parent : ℕ) (routes : Option ℕ) (signals : List ℕ) (roots : ℕ → Option Root)
        (store : Store) (started : Bool) {w v : World}
        → new chanbufsize idle_timeout (some parent) routes signals roots store ≡ made w started
        → Changes w v
        → IsWellFormed v
    unfolding new new_server
    Changes-IsWellFormed_of_new parent routes signals roots store started {w} is cs =
        Changes-IsWellFormed cs
          (elim (Outcome-cases
            (Main.new_main {F = Deferred} chanbufsize (some parent) signals store)) [
              | inr (p, broke) ↦ absurd (ground arith)
              | inl ((m, began), e) ↦ elim (Option-cases (roots (mux_of routes))) [
                | inr (r, taken) ↦ absurd (ground arith)
                | inl free ↦
                    let at : record {
                      self = new_server idle_timeout (mux_of routes) signals m;
                      roots = put_root (mux_of routes) roots;
                      store = m.store;
                    }
                        ≡ w =
                      ground arith in
                    let (own, inside, _, _, _) =
                      new_main-own chanbufsize parent signals store m began e in
                    subst IsWellFormed at (record {
                      rooted = ground arith;
                      rests = refl;
                      entry_keeps = tt;
                      requests_inherit = refl;
                      own_cancel = own;
                      in_store = inside;
                    })
              ]
            ])
