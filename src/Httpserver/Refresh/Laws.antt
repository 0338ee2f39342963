-- ===== src/Httpserver/Refresh/Laws.antt =====
-- What Refresh leaves of a server, and that the server can listen again.
use mostly.Common.{
  ℕ, ◌≡◌, ◌⊎◌, refl, sym, ap, ◌∙◌, subst, List, [], ◌∷◌, Bool, true, false, not, Option, none, some,
  Option-cases, Bool-cases, arith, inl, inr,
}
use mostly.Cancellable.Context.{Err, cause, is_done, cancel}
use mostly.Cancellable.Context.Laws.{cause-cancel_self}
use mostly.Cancellable.Handle.{call_cancel}
use mostly.Superchan.State.{ok, ctx, has_err}
use mostly.Superchan.State.Laws.{Outcome-cases}
use mostly.Superchan.Main as Main
use mostly.Superchan.Main.Kept.{new_main-own}
use mostly.Superchan.Main.Laws.{new_main_branches}
use mostly.Httpserver.State.{Deferred, World, buildserver, copy_http_server, cannot_refresh}
use mostly.Httpserver.Routes.{apply_entry}
use mostly.Httpserver.Listen.{is_empty, listen_and_serve_all, serving}
use mostly.Httpserver.Listen.Laws.{Acceptable, armed, listen_and_serve_all_iff}
use mostly.Httpserver.Refresh.{
  refresh_panicked, came_back, parent_of, rebuilt, call_refresh_func, refresh,
}
use mostly.Httpserver.Invariant.{IsWellFormed, rebuilt-IsWellFormed}

module _ (chanbufsize idle_timeout background : ℕ) (run : ℕ → World → World × Option Err)
    (wrap : Err → Err) where
  refresh-rebuilt :
      (newmainctx : Option ℕ) (w : World) (m : Main.World Deferred) (started : Bool)
      → has_err w.self.chan w.store ≡ true
      → Main.new_main chanbufsize
          (some (parent_of background newmainctx))
          w.self.signals_handled
          w.store
        ≡ ok (m, started)
      → refresh chanbufsize idle_timeout background run wrap newmainctx w
        ≡ call_refresh_func chanbufsize idle_timeout background run wrap
            (rebuilt idle_timeout m w)
            started
            w.self.refresh_func
  unfolding refresh
  refresh-rebuilt newmainctx w m started done is = rw (done, is) refl

  call_refresh_func_error :
      (u v : World) (started began : Bool) (f : Option ℕ) (e : Err)
      → ((g : ℕ) (x : World) → IsWellFormed x → IsWellFormed (run g x).0)
      → IsWellFormed u
      → call_refresh_func chanbufsize idle_timeout background run wrap u started f
        ≡ came_back v began (some e)
      → ((g : ℕ) × (f ≡ some g) × ((run g u).1 ≡ some e)) × (has_err v.self.chan v.store ≡ true)
  unfolding call_refresh_func call_cancel
  call_refresh_func_error u v started began none e keeps i h = absurd (ground arith)
  call_refresh_func_error u v started began (some g) e keeps i h =
      let k = keeps g u i in
      let u2 : World = (run g u).0 in
      elim (Option-cases (run g u).1) [
        | inl fine ↦ absurd (ground arith)
        | inr (x, bad) ↦
            let same : x ≡ e = ground (arith, k.own_cancel) in
            let is : record u2 { store = cancel u2.store (ctx u2.self.chan) (some (wrap x)) } ≡ v =
              ground (arith, k.own_cancel) in
            let done = cause-cancel_self u2.store (ctx u2.self.chan) (some (wrap x)) k.in_store in
            (
              (g, refl, bad ∙ ap some same),
              subst (λ (y : World). has_err y.self.chan y.store ≡ true) is (ap is_done done),
            )
      ]

  -- Refresh panics on a server whose context is live. Where the context is done, the server handles a
  -- signal, the given context, or the background for none, is live, and there is no refresh function,
  -- Refresh returns no error and starts the goroutine for the signals. The server keeps all but its
  -- superchan, which is new, live and with no deferred function first or last, and of the http.Server
  -- all but the idle timeout, which is the package's, the context that requests inherit, which is
  -- the new superchan's, and the state of the shutdown, with the functions registered for it. It can then
  -- listen: ListenAndServeAll goes on to serve with any acceptable arguments.
  pub refresh_ready :
      (newmainctx : Option ℕ) (w : World) (sig : ℕ) (sigs : List ℕ) (stat : List ℕ → Option ℕ)
      (http_addr https_addr cert key : List ℕ)
      → w.self.signals_handled ≡ sig ∷ sigs
      → cause w.store (parent_of background newmainctx) ≡ none
      → w.self.refresh_func ≡ none
      → Acceptable stat http_addr https_addr cert key
      → ((has_err w.self.chan w.store ≡ false)
          × (refresh chanbufsize idle_timeout background run wrap newmainctx w
              ≡ refresh_panicked cannot_refresh w))
        ⊎ ((has_err w.self.chan w.store ≡ true)
            × ((v : World) × (refresh chanbufsize idle_timeout background run wrap newmainctx w
                  ≡ came_back v true none)
                × (has_err v.self.chan v.store ≡ false)
                × (v.self.chan.deferfuncs ≡ some [])
                × (v.self ≡ record w.self {
                  chan = v.self.chan;
                  server = record w.self.server {
                    idle_timeout = idle_timeout;
                    base_context = ctx v.self.chan;
                    on_shutdown = [];
                    in_shutdown = false;
                  };
                })
                × (v.roots ≡ w.roots)
                × (listen_and_serve_all stat http_addr https_addr cert key v
                    ≡ serving
                        (armed (record v { self = apply_entry v.self }))
                        (not (is_empty key))
                        (not (is_empty http_addr)))))
  unfolding refresh rebuilt copy_http_server buildserver call_refresh_func
  refresh_ready newmainctx w sig sigs stat http_addr https_addr cert key handled live no_func a =
      elim (Bool-cases (has_err w.self.chan w.store)) [
        | inr going ↦ inl (going, ground arith)
        | inl done ↦
            let (_, (m, started, is, st, same, fresh, more, own, none_yet, open_ch)) =
              new_main_branches Deferred chanbufsize (parent_of background newmainctx) sig sigs
                w.store in
            let v : World = rebuilt idle_timeout m w in
            let made =
              ap
                (λ l.
                  Main.new_main {F = Deferred} chanbufsize (some (parent_of background newmainctx))
                    l w.store)
                handled
              ∙ is in
            let went = refresh-rebuilt newmainctx w m started done made in
            let going = ap is_done (same ∙ live) in
            let (_, _, no_first, no_last, _) =
              new_main-own chanbufsize (parent_of background newmainctx) (sig ∷ sigs) w.store m
                started is in
            inr (
              done,
              (
                v,
                went
                    ∙ ap (call_refresh_func chanbufsize idle_timeout background run wrap v started)
                        no_func
                    ∙ ap (λ b. came_back v b none) (st ∙ ap (λ c. not (is_done c)) live),
                going,
                none_yet,
                refl,
                refl,
                (listen_and_serve_all_iff stat http_addr https_addr cert key v going no_first
                      no_last).0.1
                    a,
              ),
            )
      ]

  -- Refresh returns an error only where the refresh function returned that error on the rebuilt
  -- server, and the context of the server's superchan is then done.
  pub refresh_error :
      (newmainctx : Option ℕ) (w v : World) (started : Bool) (e : Err)
      → ((f : ℕ) (u : World) → IsWellFormed u → IsWellFormed (run f u).0)
      → IsWellFormed w
      → refresh chanbufsize idle_timeout background run wrap newmainctx w
        ≡ came_back v started (some e)
      → ((f : ℕ) × (m : Main.World Deferred) × (w.self.refresh_func ≡ some f)
          × ((run f (rebuilt idle_timeout m w)).1 ≡ some e))
        × (has_err v.self.chan v.store ≡ true)
  unfolding refresh
  refresh_error newmainctx w v started e keeps i h =
      elim (Bool-cases (has_err w.self.chan w.store)) [
        | inr going ↦ absurd (ground arith)
        | inl done ↦
            elim (Outcome-cases (
              Main.new_main {F = Deferred} chanbufsize (some (parent_of background newmainctx))
                w.self.signals_handled w.store)) [
                  | inr (p, broke) ↦ absurd (ground arith)
                  | inl ((m, began), is) ↦
                      let ((g, named, ran), ended) =
                        call_refresh_func_error (rebuilt idle_timeout m w) v began started
                          w.self.refresh_func e keeps
                          (rebuilt-IsWellFormed chanbufsize idle_timeout
                            (parent_of background newmainctx) w m began is i)
                          (sym (refresh-rebuilt newmainctx w m began done is) ∙ h) in
                      ((g, m, named, ran), ended)
                ]
      ]
