-- ===== src/Httpserver/Routes/Laws.antt =====
-- What New makes, and in which order the middlewares stand.
use mostly.Common.{
  ℕ, ◌≡◌, ◌⊎◌, inl, inr, refl, ap, ◌∙◌, List, [], ◌∷◌, ◌++◌, map, reverse, not, Option, none, some,
  append_assoc, reverse-cons, Option-cases, arith, length,
}
use mostly.Cancellable.Context.{Store, cause, is_done}
use mostly.Superchan.State.{no_signals_provided, ctx}
use mostly.Superchan.Main.Laws.{new_main_branches}
use mostly.Httpserver.State.{
  Handler, from_mux, func, wrapped, Middleware, Deferred, Root, base_handler, HttpServer, World,
  no_ctx, root_taken, of_superchan, returned,
}
use mostly.Httpserver.Routes.{
  made, failed, mux_of, put_root, new_server, new, with_handler, insert_loop, insert_middleware,
}

-- The middlewares of a handler, the outermost first.
unfoldable pub layers : Handler → List ℕ
layers (from_mux m) = []
layers (func f) = []
layers (wrapped k h) = k ∷ layers h

-- A middleware that calls the handler that it is given, by its number.
abbrev pub wrap : ℕ → Middleware
wrap k none = none
wrap k (some h) = some (wrapped k h)

abbrev wrap_all : List ℕ → Handler → Handler
wrap_all [] h = h
wrap_all (k ∷ ks) h = wrap_all ks (wrapped k h)

insert_loop-wrap :
    (ks : List ℕ) (s : HttpServer) (h : Handler)
    → insert_loop (map (λ k. some (wrap k)) ks) (with_handler (some h) s)
      ≡ returned (with_handler (some (wrap_all ks h)) s)
unfolding insert_loop
insert_loop-wrap [] s h = refl
insert_loop-wrap (k ∷ ks) s h = insert_loop-wrap ks s (wrapped k h)

layers-wrap_all : (ks : List ℕ) (h : Handler) → layers (wrap_all ks h) ≡ reverse ks ++ layers h
unfolding layers
layers-wrap_all [] h = refl
layers-wrap_all (k ∷ ks) h = layers-wrap_all ks (wrapped k h) ∙ simp (reverse-cons, append_assoc)

-- InsertMiddleware, given middlewares that call the handler below them, returns with these above the
-- handler that was there, so that those added later are called first, and changes nothing else.
pub insert_middleware-layers :
    (ks : List ℕ) (s : HttpServer) (h : Handler)
    → s.server.handler ≡ some h
    → (g : Handler) × (insert_middleware (map (λ k. some (wrap k)) ks) s
        ≡ returned (with_handler (some g) s))
      × (layers g ≡ reverse ks ++ layers h)
unfolding insert_middleware
insert_middleware-layers ks s h e =
    let same : s ≡ with_handler (some h) s = ground arith in
    (
      wrap_all ks h,
      rw (insert_middleware, e)
          (ap (insert_loop (map (λ k. some (wrap k)) ks)) same ∙ insert_loop-wrap ks s h),
      layers-wrap_all ks h,
    )

-- New with a context, a signal and a free "/" in its multiplexer, which is http.DefaultServeMux where
-- none is given, makes a server on a fresh context below the given one, with the multiplexer as its
-- handler and the home and not-found handler at its "/". Its signals are waited for exactly if the
-- given context is not done. Without a context, without a signal or with a "/" that is taken it
-- panics.
pub new_branches :
    (chanbufsize idle_timeout parent sig : ℕ) (routes : Option ℕ) (sigs : List ℕ)
    (roots : ℕ → Option Root) (store : Store)
    → (new chanbufsize idle_timeout none routes (sig ∷ sigs) roots store ≡ failed no_ctx)
      × (new chanbufsize idle_timeout (some parent) routes [] roots store
          ≡ failed (of_superchan no_signals_provided))
      × (((r : Root) × (roots (mux_of routes) ≡ some r)
            × (new chanbufsize idle_timeout (some parent) routes (sig ∷ sigs) roots store
                ≡ failed root_taken))
          ⊎ ((roots (mux_of routes) ≡ none)
              × ((w : World) × (new chanbufsize idle_timeout
                      (some parent)
                      routes
                      (sig ∷ sigs)
                      roots
                      store
                    ≡ made w (not (is_done (cause store parent))))
                  × (cause w.store (ctx w.self.chan) ≡ cause store parent)
                  × (ctx w.self.chan ≡ length store)
                  × (w.self.server.handler ≡ some (from_mux (mux_of routes)))
                  × (w.self.server.base_context ≡ ctx w.self.chan)
                  × (w.roots (mux_of routes) ≡ some base_handler)
                  × (w.self.chan.deferfuncs ≡ some []))))
unfolding new new_server
new_branches chanbufsize idle_timeout parent sig routes sigs roots store =
    let (empty, (m, started, is, st, same, fresh, more, own, none_yet, open_ch)) =
      new_main_branches Deferred chanbufsize parent sig sigs store in
    (
      refl,
      rw (new, empty) refl,
      elim (Option-cases (roots (mux_of routes))) [
        | inr (r, e) ↦ inl (r, e, rw (new, is, e) refl)
        | inl e ↦ inr (
          e,
          (
            record {
              self = new_server idle_timeout (mux_of routes) (sig ∷ sigs) m;
              roots = put_root (mux_of routes) roots;
              store = m.store;
            },
            rw (new, is, e, st) refl,
            same,
            fresh,
            refl,
            refl,
            ground arith,
            none_yet,
          ),
        )
      ],
    )
