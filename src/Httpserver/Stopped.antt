-- ===== src/Httpserver/Stopped.antt =====
-- A server whose signal handler has returned and whose ShutdownServer has been called: what it keeps, and
-- that Refresh makes it ready.
use mostly.Common.{
  ℕ, ◌<◌, ◌≤◌, ◌≡◌, sym, ap, ◌∙◌, subst, inl, inr, List, ◌∷◌, Bool, true, not, Option, none, some,
  length, arith,
}
use mostly.Cancellable.Context.{Err, cause}
use mostly.Superchan.State.{ctx, has_err}
use mostly.Superchan.Main as Main
use mostly.Superchan.Main.{
  MainEvent, cancel_all, put_back, set_ch, MainSignalHandler, context_done, cancel_then_deferred,
  deferred_then_cancel, deferred_panics,
}
use mostly.Httpserver.State.{Server, HttpServer, World, Deferred, shut_down, stop_waiting, returned}
use mostly.Httpserver.Routes.{apply_entry}
use mostly.Httpserver.Listen.{is_empty, starts_https, starts_http, listen_and_serve_all, serving}
use mostly.Httpserver.Listen.Laws.{
  Acceptable, armed, begin_serving-armed, serving_inv, check-Acceptable, apply_entry_absent,
}
use mostly.Httpserver.Serve.{shutdown_server}
use mostly.Httpserver.Refresh.{refresh, came_back, parent_of}
use mostly.Httpserver.Refresh.Laws.{refresh_ready}
use mostly.Httpserver.Invariant.{IsWellFormed, Rests}
use mostly.Httpserver.Changes.{shutdown_server-kept, refresh-IsWellFormed}

-- What ListenAndServeAll leaves of a server that it serves with.
pub serving_fields :
    (stat : List ℕ → Option ℕ) (http_addr https_addr cert key : List ℕ) (w v : World)
    (https http : Bool)
    → listen_and_serve_all stat http_addr https_addr cert key w ≡ serving v https http
    → (v.self.refresh_func ≡ w.self.refresh_func)
      × (v.self.signals_handled ≡ w.self.signals_handled)
      × (v.self.entrypoint ≡ none)
      × Acceptable stat http_addr https_addr cert key
unfolding apply_entry
serving_fields stat http_addr https_addr cert key w v https http is =
    let (passed, began) = serving_inv stat http_addr https_addr cert key w v https http is in
    let (_, _, armed_is) =
      begin_serving-armed http_addr https_addr (record w { self = apply_entry w.self }) v began in
    let (_, acceptable) =
      check-Acceptable stat (has_err w.self.chan w.store) http_addr https_addr cert key passed in
    subst
      (λ (x : World).
        (x.self.refresh_func ≡ w.self.refresh_func)
        × (x.self.signals_handled ≡ w.self.signals_handled)
        × (x.self.entrypoint ≡ none)
        × Acceptable stat http_addr https_addr cert key)
      armed_is (ground arith, ground arith, ground arith, acceptable)

-- Which listeners a server that serves has started.
pub serving_listeners :
    (stat : List ℕ → Option ℕ) (http_addr https_addr cert key : List ℕ) (w v : World)
    (https http : Bool)
    → listen_and_serve_all stat http_addr https_addr cert key w ≡ serving v https http
    → (starts_https https_addr cert key ≡ https) × (starts_http http_addr ≡ http)
unfolding listen_and_serve_all
serving_listeners stat http_addr https_addr cert key w v https http is = ground arith

pub serving_deferred :
    (stat : List ℕ → Option ℕ) (http_addr https_addr cert key : List ℕ) (w v : World)
    (https http : Bool)
    → listen_and_serve_all stat http_addr https_addr cert key w ≡ serving v https http
    → (v.self.chan.deferfirst ≡ some shut_down) × (v.self.chan.deferlast ≡ some stop_waiting)
serving_deferred stat http_addr https_addr cert key w v https http is =
    let (_, began) = serving_inv stat http_addr https_addr cert key w v https http is in
    let (_, _, armed_is) =
      begin_serving-armed http_addr https_addr (record w { self = apply_entry w.self }) v began in
    (
      ap (λ (x : World). x.self.chan.deferfirst) (sym armed_is),
      ap (λ (x : World). x.self.chan.deferlast) (sym armed_is),
    )

-- The server when its signal handler has returned and ShutdownServer has been called.
abbrev pub stopped_server : World → Server → Main.World Deferred → World
stopped_server v srv ended = record v {
  self = record v.self { server = srv; chan = ended.chan };
  store = ended.store;
}

pub stopped_server-IsWellFormed :
    (v : World) (srv : Server) (ended : Main.World Deferred)
    → IsWellFormed v
    → shutdown_server v.self.server ≡ returned srv
    → ended.chan.chan.handle ≡ v.self.chan.chan.handle
    → length v.store ≤ length ended.store
    → IsWellFormed (stopped_server v srv ended)
stopped_server-IsWellFormed v srv ended i shut same more =
    let (handler, base) = shutdown_server-kept v.self.server srv shut in
    let (own, there) : (ended.chan.chan.handle.cancel_func ≡ some (ctx ended.chan))
        × (ctx ended.chan < length ended.store) =
      (
        ap (λ h. h.cancel_func) same ∙ i.own_cancel ∙ ap (λ h. some h.context) (sym same),
        subst (λ h. h.context < length ended.store) (sym same) (omega (arith, i.in_store)),
      ) in
    record {
      rooted = i.rooted;
      rests = subst (λ h. Rests h v.self.serve_mux) (sym handler) i.rests;
      entry_keeps = i.entry_keeps;
      requests_inherit = base ∙ i.requests_inherit ∙ ap (λ h. h.context) (sym same);
      own_cancel = own;
      in_store = there;
    }

module _ (chanbufsize idle_timeout background : ℕ) (run : ℕ → World → World × Option Err)
    (wrap : Err → Err) (stat : List ℕ → Option ℕ)
    (keeps_run : (f : ℕ) (u : World) → IsWellFormed u → IsWellFormed (run f u).0) where
  -- A stopped server is made ready by Refresh.
  pub stopped_server-refresh :
      (w : World) (sig : ℕ) (sigs : List ℕ) (newmainctx : Option ℕ)
      (http_addr https_addr cert key : List ℕ)
      → IsWellFormed w
      → w.self.signals_handled ≡ sig ∷ sigs
      → w.self.refresh_func ≡ none
      → w.self.entrypoint ≡ none
      → Acceptable stat http_addr https_addr cert key
      → has_err w.self.chan w.store ≡ true
      → cause w.store (parent_of background newmainctx) ≡ none
      → (r : World) × (refresh chanbufsize idle_timeout background run wrap newmainctx w
          ≡ came_back r true none)
        × IsWellFormed r
        × (r.self.server.handler ≡ w.self.server.handler)
        × (r.self.server.idle_timeout ≡ idle_timeout)
        × (listen_and_serve_all stat http_addr https_addr cert key r
            ≡ serving (armed r) (not (is_empty key)) (not (is_empty http_addr)))
  stopped_server-refresh w sig sigs newmainctx http_addr https_addr cert key i handled no_func
        no_entry a done live =
      elim (refresh_ready chanbufsize idle_timeout background run wrap newmainctx w sig sigs stat
        http_addr https_addr cert key handled live no_func a) [
          | inl (going, _) ↦ absurd (ground arith)
          | inr (_, (r, is, _, _, self_is, _, again)) ↦
              let bare =
                apply_entry_absent r.self
                  (ap (λ (h : HttpServer). h.entrypoint) self_is ∙ no_entry) in
              (
                r,
                is,
                refresh-IsWellFormed chanbufsize idle_timeout background run wrap stat keeps_run
                    newmainctx w r true none is i,
                ap (λ (h : HttpServer). h.server.handler) self_is,
                ap (λ (h : HttpServer). h.server.idle_timeout) self_is,
                again
                    ∙ ap
                        (λ h.
                          serving (armed (record r { self = h })) (not (is_empty key))
                            (not (is_empty http_addr)))
                        bare,
              )
        ]
