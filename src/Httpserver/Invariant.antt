-- ===== src/Httpserver/Invariant.antt =====
-- What stays true of a server under every call: its multiplexer has the server's handler at "/" and
-- stands below all middlewares, and its context is its superchan's own.
use mostly.Common.{
  ℕ, ◌<◌, ◌≡◌, inl, inr, refl, sym, subst, List, [], ◌∷◌, Bool, ◌==◌, Option, none, some,
  Option-cases, Bool-cases, arith, length,
}
use mostly.Superchan.State.{ctx, ok}
use mostly.Superchan.Main.Kept.{new_main-own}
use mostly.Superchan.Main as Main
use mostly.Httpserver.State.{
  Handler, from_mux, func, wrapped, Middleware, Deferred, base_handler, HttpServer, World, returned,
}
use mostly.Httpserver.Routes.{
  put_root, with_handler, insert_loop, insert_middleware, apply_entry, is_mux, swap_serve_mux,
}
use mostly.Httpserver.Listen.{listen_and_serve_all, begin_serving, serving}
use mostly.Httpserver.Listen.Laws.{begin_serving-armed}
use mostly.Httpserver.Refresh.{rebuilt}

-- The multiplexer stands below the handler's middlewares.
abbrev pub Rests : Option Handler → ℕ → Type 0
Rests none mux = ⊥
Rests (some (from_mux m)) mux = m ≡ mux
Rests (some (func f)) mux = ⊥
Rests (some (wrapped k h)) mux = Rests (some h) mux

-- A middleware that has the handler below it in its own.
abbrev pub Keeps : Middleware → Type 0
Keeps m = (h : Option Handler) (mux : ℕ) → Rests h mux → Rests (m h) mux

abbrev pub KeepsIfAny : Option Middleware → Type 0
KeepsIfAny none = Unit
KeepsIfAny (some m) = Keeps m

abbrev pub AllKeep : List (Option Middleware) → Type 0
AllKeep [] = Unit
AllKeep (m ∷ ms) = KeepsIfAny m × AllKeep ms

pub record IsWellFormed (w : World) : Type 0 where
  pub rooted : w.roots w.self.serve_mux ≡ some base_handler
  pub rests : Rests w.self.server.handler w.self.serve_mux
  pub entry_keeps : KeepsIfAny w.self.entrypoint
  pub requests_inherit : w.self.server.base_context ≡ ctx w.self.chan
  pub own_cancel : w.self.chan.chan.handle.cancel_func ≡ some (ctx w.self.chan)
  pub in_store : ctx w.self.chan < length w.store

insert_loop-Rests :
    (ms : List (Option Middleware)) (s t : HttpServer)
    → AllKeep ms
    → insert_loop ms s ≡ returned t
    → Rests s.server.handler s.serve_mux
    → (h : Option Handler) × (t ≡ with_handler h s) × Rests h s.serve_mux
unfolding insert_loop
insert_loop-Rests [] s t k e r = (s.server.handler, ground arith, r)
insert_loop-Rests (none ∷ ms) s t k e r = absurd (ground arith)
insert_loop-Rests (some m ∷ ms) s t (km, kms) e r =
    insert_loop-Rests ms (with_handler (m s.server.handler) s) t kms e
      (km s.server.handler s.serve_mux r)

pub insert_middleware-IsWellFormed :
    (ms : List (Option Middleware)) (w : World) (t : HttpServer)
    → AllKeep ms
    → insert_middleware ms w.self ≡ returned t
    → IsWellFormed w
    → IsWellFormed (record w { self = t })
unfolding insert_middleware
insert_middleware-IsWellFormed ms w t k e v = elim (Option-cases w.self.server.handler) [
  | inl gone ↦ absurd (ground arith)
  | inr (g, there) ↦
      let run : insert_loop ms w.self ≡ returned t = ground arith in
      let (h, is, r) = insert_loop-Rests ms w.self t k run v.rests in
      subst (λ (x : HttpServer). IsWellFormed (record w { self = x })) (sym is)
        (record {
          rooted = v.rooted;
          rests = r;
          entry_keeps = v.entry_keeps;
          requests_inherit = v.requests_inherit;
          own_cancel = v.own_cancel;
          in_store = v.in_store;
        })
]

apply_entry-IsWellFormed :
    (w : World) → IsWellFormed w → IsWellFormed (record w { self = apply_entry w.self })
unfolding apply_entry
apply_entry-IsWellFormed w v = elim (Option-cases w.self.entrypoint) [
  | inl e ↦
      let is : w.self ≡ apply_entry w.self = ground arith in
      subst (λ (x : HttpServer). IsWellFormed (record w { self = x })) is v
  | inr (m, e) ↦
      let is : record (with_handler (m w.self.server.handler) w.self) { entrypoint = none }
          ≡ apply_entry w.self =
        ground arith in
      subst (λ (x : HttpServer). IsWellFormed (record w { self = x })) is
        (record {
          rooted = v.rooted;
          rests = subst KeepsIfAny e v.entry_keeps w.self.server.handler w.self.serve_mux v.rests;
          entry_keeps = tt;
          requests_inherit = v.requests_inherit;
          own_cancel = v.own_cancel;
          in_store = v.in_store;
        })
]

pub swap_serve_mux-IsWellFormed :
    (mux : ℕ) (w t : World) → swap_serve_mux mux w ≡ returned t → IsWellFormed w → IsWellFormed t
unfolding swap_serve_mux
swap_serve_mux-IsWellFormed mux w t e v =
    elim (Bool-cases (is_mux w.self.server.handler w.self.serve_mux)) [
      | inr other ↦ absurd (ground arith)
      | inl bare ↦ elim (Bool-cases (mux == w.self.serve_mux)) [
        | inl same ↦ let is : w ≡ t = ground arith in subst IsWellFormed is v
        | inr new_mux ↦ elim (Option-cases (w.roots mux)) [
          | inr (r, taken) ↦ absurd (ground arith)
          | inl free ↦
              let is : record w {
                self = record (with_handler (some (from_mux mux)) w.self) { serve_mux = mux };
                roots = put_root mux w.roots;
              }
                  ≡ t =
                ground arith in
              subst IsWellFormed is (record {
                rooted = ground arith;
                rests = refl;
                entry_keeps = v.entry_keeps;
                requests_inherit = v.requests_inherit;
                own_cancel = v.own_cancel;
                in_store = v.in_store;
              })
        ]
      ]
    ]

begin_serving-IsWellFormed :
    (http_addr https_addr : List ℕ) (w t : World)
    → begin_serving http_addr https_addr w ≡ returned t
    → IsWellFormed w
    → IsWellFormed t
begin_serving-IsWellFormed http_addr https_addr w t e v =
    subst IsWellFormed (begin_serving-armed http_addr https_addr w t e).2 (record {
      rooted = v.rooted;
      rests = v.rests;
      entry_keeps = v.entry_keeps;
      requests_inherit = v.requests_inherit;
      own_cancel = v.own_cancel;
      in_store = v.in_store;
    })

pub listen_and_serve_all-IsWellFormed :
    (stat : List ℕ → Option ℕ) (http_addr https_addr cert key : List ℕ) (w t : World)
    (https http : Bool)
    → listen_and_serve_all stat http_addr https_addr cert key w ≡ serving t https http
    → IsWellFormed w
    → IsWellFormed t
unfolding listen_and_serve_all
listen_and_serve_all-IsWellFormed stat http_addr https_addr cert key w t https http e v =
    begin_serving-IsWellFormed http_addr https_addr (record w { self = apply_entry w.self }) t
      (ground arith) (apply_entry-IsWellFormed w v)

-- NewMain makes a superchan on a context of its own, at whatever signals it does not panic for.
pub rebuilt-IsWellFormed :
    (chanbufsize idle_timeout parent : ℕ) (w : World) (m : Main.World Deferred) (started : Bool)
    → Main.new_main chanbufsize (some parent) w.self.signals_handled w.store ≡ ok (m, started)
    → IsWellFormed w
    → IsWellFormed (rebuilt idle_timeout m w)
unfolding rebuilt
rebuilt-IsWellFormed chanbufsize idle_timeout parent w m started e v =
    let (own, inside, _, _, _) =
      new_main-own chanbufsize parent w.self.signals_handled w.store m started e in
    record {
      rooted = v.rooted;
      rests = v.rests;
      entry_keeps = v.entry_keeps;
      requests_inherit = refl;
      own_cancel = own;
      in_store = inside;
    }
