-- ===== src/Httpserver/Cycle.antt =====
-- The life of a server: it serves, its signal handler ends it, and Refresh makes it ready to serve again.
use mostly.Common.{
  ℕ, ◌<◌, ◌≤◌, ◌≡◌, sym, ap, ◌∙◌, subst, List, [], ◌∷◌, Bool, true, not, Option, none, some, length,
  arith,
}
use mostly.Cancellable.Context.{Err, Store, cause}
use mostly.Cancellable.Chan.{Channel}
use mostly.Superchan.State.{Superchan, Config, is_dead, ctx}
use mostly.Superchan.Rundeferred.{finished}
use mostly.Superchan.Main as Main
use mostly.Superchan.Main.{
  others_of, MainEvent, cancel_all, put_back, set_ch, MainSignalHandler, context_done,
  cancel_then_deferred, deferred_then_cancel, deferred_panics,
}
use mostly.Superchan.Main.Laws.{MainSignalHandler-finished}
use mostly.Superchan.Main.Laws.{Order}
use mostly.Superchan.Goroutines.{Event}
use mostly.Superchan.Goroutines.Barriers.{Stretches}
use mostly.Superchan.State.{optional, funcs}
use mostly.Superchan.Reader.{with_ch}
use mostly.Superchan.Main.Kept.{handler_keeps, Order-has_err}
use mostly.Httpserver.State.{Server, World, Deferred, shut_down, stop_waiting, returned}
use mostly.Httpserver.Listen.{is_empty, listen_and_serve_all, serving}
use mostly.Httpserver.Listen.Laws.{armed, starts_https-Acceptable}
use mostly.Httpserver.Serve.{shutdown_server}
use mostly.Httpserver.Order.{Defers, Defers-deferfirst}
use mostly.Httpserver.Refresh.{refresh, came_back, parent_of}
use mostly.Httpserver.Invariant.{IsWellFormed, listen_and_serve_all-IsWellFormed}
use mostly.Httpserver.Changes.{shutdown_server-kept}
use mostly.Httpserver.Stopped.{
  serving_fields, serving_listeners, serving_deferred, stopped_server, stopped_server-IsWellFormed,
  stopped_server-refresh,
}

module _ (chanbufsize idle_timeout background : ℕ) (run : ℕ → World → World × Option Err)
    (wrap : Err → Err) (stat : List ℕ → Option ℕ) (panics : Deferred → Bool) (cfg : Config)
    (make_signal_error : ℕ → Err) (zero_value : ℕ)
    (keeps_run : (f : ℕ) (u : World) → IsWellFormed u → IsWellFormed (run f u).0) where
  -- A well-formed server with signals to handle and no refresh function serves. Its user defers further
  -- functions, others make contexts and cancel them, signals come into its channel, and the signal
  -- handler returns, with ShutdownServer called. Then every deferred function has run once, the server's
  -- shutdown before all others and the end of its wait behind them, with the handler's own Cancel and
  -- the close of its channel where CancelBeforeDefer has them, and the superchan is dead. Where refresh
  -- functions keep servers well-formed, and a live context is given, or none and the background is
  -- live, Refresh returns no error, and the server is well-formed again, with the handler that it had
  -- and the idle timeout of the package; ListenAndServeAll with the same arguments serves again, on
  -- the same listeners, with nothing put on top of that handler.
  pub serves_again :
      (w v : World) (http_addr https_addr cert key : List ℕ) (https http : Bool) (sig : ℕ)
      (sigs : List ℕ) (u : Superchan Deferred ℕ) (c : Channel ℕ) (store : Store)
      (es : List (MainEvent Deferred)) (ended : Main.World Deferred) (srv : Server)
      (newmainctx : Option ℕ)
      → IsWellFormed w
      → w.self.signals_handled ≡ sig ∷ sigs
      → w.self.refresh_func ≡ none
      → listen_and_serve_all stat http_addr https_addr cert key w ≡ serving v https http
      → Defers v.self.chan u
      → length v.store ≤ length store
      → (handler : MainSignalHandler panics cfg make_signal_error zero_value
          (record { chan = with_ch u c; store = store })
          es
          ended
          finished)
      → shutdown_server v.self.server ≡ returned srv
      → cause ended.store (parent_of background newmainctx) ≡ none
      → ((fs : List (Event Deferred)) × Stretches panics
            ((shut_down ∷ []) ∷ funcs u.deferfuncs ∷ (stop_waiting ∷ []) ∷ [])
            fs
          × Order panics cfg make_signal_error zero_value
              (record { chan = with_ch u c; store = store })
              (others_of handler)
              fs
              es
              ended.store)
        × (is_dead ended.chan ≡ true)
        × ((r : World) × (refresh chanbufsize idle_timeout background run wrap newmainctx
                (stopped_server v srv ended)
              ≡ came_back r true none)
            × IsWellFormed r
            × (r.self.server.handler ≡ v.self.server.handler)
            × (r.self.server.idle_timeout ≡ idle_timeout)
            × (listen_and_serve_all stat http_addr https_addr cert key r
                ≡ serving (armed r) https http))
  serves_again w v http_addr https_addr cert key https http sig sigs u c store es ended srv
        newmainctx i handled no_func served more grown handler shut live =
      let (func_is, signals_is, no_entry, a) =
        serving_fields stat http_addr https_addr cert key w v https http served in
      let (https_is, http_is) =
        serving_listeners stat http_addr https_addr cert key w v https http served in
      let (first_set, last_set) =
        serving_deferred stat http_addr https_addr cert key w v https http served in
      let (first, last, same) = Defers-deferfirst more in
      let vi =
        listen_and_serve_all-IsWellFormed stat http_addr https_addr cert key w v https http served
          i in
      let own : u.chan.handle.cancel_func ≡ some (ctx u) =
        ap (λ h. h.handle.cancel_func) same
        ∙ vi.own_cancel
        ∙ ap (λ h. some h.handle.context) (sym same) in
      let there : ctx u < length store =
        subst (λ h. h.handle.context < length store) (sym same)
          (omega (arith, vi.in_store, grown)) in
      let start : Main.World Deferred = record { chan = with_ch u c; store = store } in
      let (kept_handle, size) =
        handler_keeps panics cfg make_signal_error zero_value {w = start} own handler in
      let (fs, stretches, _, order, dead, _) =
        MainSignalHandler-finished panics cfg make_signal_error zero_value {w = start} own there
          handler in
      let done =
        Order-has_err panics cfg make_signal_error zero_value start ended (others_of handler) fs es
          order kept_handle in
      let (r, is, ri, handler_is, idle_is, again) =
        stopped_server-refresh chanbufsize idle_timeout background run wrap stat keeps_run
          (stopped_server v srv ended) sig sigs newmainctx http_addr https_addr cert key
          (stopped_server-IsWellFormed v srv ended vi shut (kept_handle ∙ ap (λ h. h.handle) same)
            (omega (arith, size, grown)))
          (signals_is ∙ handled) (func_is ∙ no_func) no_entry a done live in
      (
        (
          fs,
          subst
              (λ f.
                Stretches panics (optional f ∷ funcs u.deferfuncs ∷ (stop_waiting ∷ []) ∷ []) fs)
              (first ∙ first_set)
              (subst
                (λ f.
                  Stretches panics (optional u.deferfirst ∷ funcs u.deferfuncs ∷ optional f ∷ [])
                    fs)
                (last ∙ last_set) stretches),
          order,
        ),
        dead,
        (
          r,
          is,
          ri,
          handler_is ∙ (shutdown_server-kept v.self.server srv shut).0,
          idle_is,
          again
              ∙ ap (λ b. serving (armed r) b (not (is_empty http_addr)))
                  (sym (starts_https-Acceptable stat http_addr https_addr cert key a) ∙ https_is)
              ∙ ap (serving (armed r) https) http_is,
        ),
      )
