-- ===== src/Httpserver/Serve/Laws.antt =====
-- What has happened when ListenAndServeAll returns.
use mostly.Common.{
  ℕ, ◌≡◌, ◌≢◌, ◌⊎◌, refl, sym, ap, ◌∙◌, subst, List, [], ◌∷◌, ◌++◌, append_assoc, append-nil, Bool,
  true, false, Option, arith, if◌then◌else◌, inl, inr,
}
use mostly.Httpserver.State.{World, shutdown_mark}
use mostly.Httpserver.Listen.{listen_and_serve_all, serving}
use mostly.Httpserver.Serve.Invariant.{
  serving_closures, IsShut, ShutWhere, WokenWhere, IsServing, IsClosed, Step-IsServing,
  Run-IsServing, start-IsServing,
}
use mostly.Httpserver.Serve.{
  fails, server_shut, Phase, waiting, at_first, at_others, at_last, over, lost, crashed, Event,
  deferred_called, Serving, start, before_events, after_events, Actor, Step, others_cancel,
  signal_comes, sees_done, nothing_first, nothing_last, shuts_down, skips_shutdown,
  shutdown_crashes, runs_deferred, deferred_crashes, ends_wait, skips_done, last_crashes,
  https_fails, https_closes, https_reports, https_stops, http_starts, http_fails, http_closes,
  http_reports, http_stops, Run, here, next, HasReturned,
}

-- What the function deferred first does: without a panic it shuts the server down.
abbrev pub first_events : Bool → Option ℕ → List Event
first_events failed func1 = before_events func1 ++ (if failed then [] else server_shut ∷ [])

-- What the server still owes, in order: the function deferred first, then the deferred functions, then
-- the function of DeferLast.
abbrev owed_at : Phase → Bool → Option ℕ → Option ℕ → List Event
owed_at waiting failed func1 func = first_events failed func1 ++ deferred_called ∷ after_events func
owed_at at_first failed func1 func =
    first_events failed func1 ++ deferred_called ∷ after_events func
owed_at at_others failed func1 func = deferred_called ∷ after_events func
owed_at at_last failed func1 func = after_events func
owed_at over failed func1 func = []
owed_at lost failed func1 func = []
owed_at crashed failed func1 func = []

abbrev owed : Serving → List Event
owed p = owed_at p.phase (fails p.panics p.func1) p.func1 p.func

module _ (one_closes_both cancel_before_defer : Bool) where
  pub Step-kept :
      {p q : Serving} {a : Actor} {es : List Event}
      → Step one_closes_both cancel_before_defer p a es q
      → (q.func1 ≡ p.func1) × (q.func ≡ p.func) × (q.panics ≡ p.panics)
  Step-kept (others_cancel e) = (refl, refl, refl)
  Step-kept (signal_comes e) = (refl, refl, refl)
  Step-kept (sees_done e d) = (refl, refl, refl)
  Step-kept (nothing_first e d) = (refl, refl, refl)
  Step-kept (nothing_last e d) = (refl, refl, refl)
  Step-kept (shuts_down t e f s) = (refl, refl, refl)
  Step-kept (skips_shutdown e f rec) = (refl, refl, refl)
  Step-kept (shutdown_crashes e f rec) = (refl, refl, refl)
  Step-kept (runs_deferred e f) = (refl, refl, refl)
  Step-kept (deferred_crashes e f rec) = (refl, refl, refl)
  Step-kept (ends_wait e f) = (refl, refl, refl)
  Step-kept (skips_done e f rec) = (refl, refl, refl)
  Step-kept (last_crashes e f rec) = (refl, refl, refl)
  Step-kept (https_fails e) = (refl, refl, refl)
  Step-kept (https_closes e s) = (refl, refl, refl)
  Step-kept (https_reports e) = (refl, refl, refl)
  Step-kept (https_stops e) = (refl, refl, refl)
  Step-kept (http_starts e) = (refl, refl, refl)
  Step-kept (http_fails e) = (refl, refl, refl)
  Step-kept (http_closes e s) = (refl, refl, refl)
  Step-kept (http_reports e) = (refl, refl, refl)
  Step-kept (http_stops e) = (refl, refl, refl)

  Run-kept :
      {p q : Serving} {n : ℕ} {es : List Event}
      → Run one_closes_both cancel_before_defer p n es q
      → (q.func1 ≡ p.func1) × (q.func ≡ p.func) × (q.panics ≡ p.panics)
  Run-kept here = (refl, refl, refl)
  Run-kept (next _ st rest _) =
      let (a, b, c) = Step-kept st in let (d, e, f) = Run-kept rest in (d ∙ a, e ∙ b, f ∙ c)

  Step-owed :
      {p q : Serving} {a : Actor} {es : List Event}
      → Step one_closes_both cancel_before_defer p a es q
      → IsServing cancel_before_defer p
      → (owed p ≡ es ++ owed q) ⊎ (q.phase ≡ crashed)
  Step-owed {p} (others_cancel e) i = ground arith
  Step-owed {p} (signal_comes e) i = ground arith
  Step-owed {p} (sees_done e d) i = ground arith
  Step-owed {p} (nothing_first e d) i = ground arith
  Step-owed {p} (nothing_last e d) i = ground arith
  Step-owed {p} (shuts_down t e f s) i = ground arith
  Step-owed {p} (skips_shutdown e f rec) i = ground arith
  Step-owed {p} (shutdown_crashes e f rec) i = ground arith
  Step-owed {p} (runs_deferred e f) i = ground arith
  Step-owed {p} (deferred_crashes e f rec) i = ground arith
  Step-owed {p} (ends_wait e f) i = ground arith
  Step-owed {p} (skips_done e f rec) i = ground arith
  Step-owed {p} (last_crashes e f rec) i = ground arith
  Step-owed {p} (https_fails e) i = ground arith
  Step-owed {p} (https_closes e s) i = ground arith
  Step-owed {p} (https_reports e) i = ground arith
  Step-owed {p} (https_stops e) i = ground arith
  Step-owed {p} (http_starts e) i = ground arith
  Step-owed {p} (http_fails e) i = ground arith
  Step-owed {p} (http_closes e s) i = ground arith
  Step-owed {p} (http_reports e) i = ground arith
  Step-owed {p} (http_stops e) i = ground arith

  crashed_for_good :
      {p q : Serving} {n : ℕ} {es : List Event}
      → Run one_closes_both cancel_before_defer p n es q
      → p.phase ≡ crashed
      → q.phase ≢ crashed
      → ⊥
  crashed_for_good here gone alive = alive gone
  crashed_for_good (next running st rest all) gone alive = running gone

  Run-owed :
      {p q : Serving} {n : ℕ} {es : List Event}
      → Run one_closes_both cancel_before_defer p n es q
      → IsServing cancel_before_defer p
      → q.phase ≢ crashed
      → owed p ≡ es ++ owed q
  Run-owed here i alive = refl
  Run-owed {q = q} (next {es = es} {fs = fs} running st rest all) i alive = elim (Step-owed st i) [
    | inl now ↦
        now
        ∙ ap (λ l. es ++ l)
            (Run-owed rest (Step-IsServing one_closes_both cancel_before_defer st i) alive)
        ∙ sym (append_assoc es fs (owed q))
        ∙ ap (λ l. l ++ owed q) (sym all)
    | inr gone ↦ absurd (crashed_for_good rest gone alive)
  ]

  HasReturned-over :
      {q : Serving}
      → IsServing cancel_before_defer q
      → HasReturned q
      → (q.phase ≡ over) × IsClosed q.https × IsClosed q.http
  HasReturned-over i (started, zero_left) = ground arith

  -- When ListenAndServeAll returns, under every schedule and whatever failed or was cancelled, the
  -- function of DeferFirst and, if it did not panic, the shutdown of the server, the deferred functions
  -- and the function of DeferLast have each happened once and in this order. The latter did not panic,
  -- the goroutines of both listeners are done, the server is shut down unless the function of
  -- DeferFirst panicked, and with CancelBeforeDefer the context is done. The server has passed
  -- ListenAndServeAll's checks, its idle timeout is not the mark of ShutdownServer at the start, and
  -- nobody else calls ShutdownServer.
  pub HasReturned-shut :
      (panics : ℕ → Bool) (others_panic recovers : Bool) (stat : List ℕ → Option ℕ)
      (http_addr https_addr cert key : List ℕ) (w v : World) (https http : Bool) {n : ℕ}
      {es : List Event} {q : Serving}
      → listen_and_serve_all stat http_addr https_addr cert key w ≡ serving v https http
      → v.self.server.idle_timeout ≢ shutdown_mark
      → Run one_closes_both cancel_before_defer
          (start panics others_panic recovers v.self https http)
          n
          es
          q
      → HasReturned q
      → (es
          ≡ first_events (fails panics v.self.shutdown_func1) v.self.shutdown_func1
            ++ deferred_called ∷ after_events v.self.shutdown_func)
        × (fails panics v.self.shutdown_func ≡ false)
        × IsClosed q.https
        × IsClosed q.http
        × ((q.server.in_shutdown ≡ true) ⊎ (fails panics v.self.shutdown_func1 ≡ true))
        × ((cancel_before_defer ≡ false) ⊎ (q.done ≡ true))
  unfolding start
  HasReturned-shut panics others_panic recovers stat http_addr https_addr cert key w v https http
        {es = es} {q = q} served ne run back =
      let begins =
        start-IsServing one_closes_both cancel_before_defer panics others_panic recovers v.self
          https http ne
          (serving_closures stat http_addr https_addr cert key w v https http served) in
      let i = Run-IsServing one_closes_both cancel_before_defer run begins in
      let (kept1, kept, same) = Run-kept run in
      let (at, closed1, closed2) = HasReturned-over i back in
      let none_left : owed q ≡ [] =
        ap (λ ph. owed_at ph (fails q.panics q.func1) q.func1 q.func) at in
      (
        sym (append-nil es)
            ∙ ap (λ l. es ++ l) (sym none_left)
            ∙ sym (Run-owed run begins (λ gone. cc (at, gone))),
        subst (λ f. fails f v.self.shutdown_func ≡ false) same
            (subst (λ f. fails q.panics f ≡ false) kept (i.ended at)),
        closed1,
        closed2,
        subst (λ f. IsShut (fails f v.self.shutdown_func1) q.server) same
            (subst (λ f. IsShut (fails q.panics f) q.server) kept1
              (subst (λ ph. ShutWhere ph (fails q.panics q.func1) q.server) at i.shut)),
        woken_over at i.woken,
      )
    where
      woken_over :
          q.phase ≡ over
          → (cancel_before_defer ≡ false) ⊎ WokenWhere q.phase q.done
          → (cancel_before_defer ≡ false) ⊎ (q.done ≡ true)
      woken_over at w = ground arith
