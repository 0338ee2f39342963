-- ===== src/Httpserver/Listen/Laws.antt =====
-- What passes the checks of ListenAndServeAll, and what it starts.
use mostly.Common.{
  ℕ, ◌≡◌, ◌≢◌, ◌↔◌, ◌⊎◌, inl, inr, refl, ap, ◌∙◌, subst, List, [], ◌∷◌, Bool, false, not, Option,
  none, some, Option-cases, arith,
}
use mostly.Superchan.State.{Superchan, has_err, deferfirst_already_set, defer_first, defer_last}
use mostly.Httpserver.State.{
  Deferred, shut_down, stop_waiting, World, HttpServer, HttpPanic, of_superchan, returned, panicked,
}
use mostly.Httpserver.Routes.{apply_entry}
use mostly.Httpserver.Listen.{
  is_empty, check, starts_https, begin_serving, listen_panicked, serving, listen_and_serve_all,
}

-- What the comment of ListenAndServeAll and its messages ask for.
abbrev pub Acceptable : (List ℕ → Option ℕ) → List ℕ → List ℕ → List ℕ → List ℕ → Type 0
Acceptable stat http_addr https_addr cert key =
    ((http_addr ≢ []) ⊎ (https_addr ≢ []))
    × (((cert ≡ []) × (key ≡ []))
        ⊎ ((cert ≢ []) × (key ≢ []) × (https_addr ≢ []) × (stat key ≡ none) × (stat cert ≡ none)))

pub check-Acceptable :
    (stat : List ℕ → Option ℕ) (done : Bool) (http_addr https_addr cert key : List ℕ)
    → check stat done http_addr https_addr cert key ≡ none
    → (done ≡ false) × Acceptable stat http_addr https_addr cert key
unfolding check
check-Acceptable stat done http_addr https_addr cert key h = ground arith

Acceptable-check :
    (stat : List ℕ → Option ℕ) (done : Bool) (http_addr https_addr cert key : List ℕ)
    → (done ≡ false) × Acceptable stat http_addr https_addr cert key
    → check stat done http_addr https_addr cert key ≡ none
unfolding check
Acceptable-check stat done http_addr https_addr cert key (live, (some_addr, together)) =
    ground arith

-- What begin_serving has deferred where it returns.
abbrev pub armed : World → World
armed w = record w {
  self = record w.self {
    chan = record w.self.chan { deferfirst = some shut_down; deferlast = some stop_waiting };
  };
}

pub begin_serving-armed :
    (http_addr https_addr : List ℕ) (w t : World)
    → begin_serving http_addr https_addr w ≡ returned t
    → (w.self.chan.deferfirst ≡ none) × (w.self.chan.deferlast ≡ none) × (armed w ≡ t)
unfolding begin_serving defer_first defer_last
begin_serving-armed http_addr https_addr w t e = elim (Option-cases w.self.chan.deferfirst) [
  | inr (f, set) ↦ absurd (ground arith)
  | inl e1 ↦ elim (Option-cases w.self.chan.deferlast) [
    | inr (f, set) ↦ absurd (ground arith)
    | inl e2 ↦ (e1, e2, ground arith)
  ]
]

pub apply_entry-chan : (s : HttpServer) → (apply_entry s).chan ≡ s.chan
unfolding apply_entry
apply_entry-chan s = ground arith

pub apply_entry-entrypoint : (s : HttpServer) → (apply_entry s).entrypoint ≡ none
unfolding apply_entry
apply_entry-entrypoint s = ground arith

pub apply_entry_absent : (s : HttpServer) → s.entrypoint ≡ none → apply_entry s ≡ s
unfolding apply_entry
apply_entry_absent s e = ground arith

begin_serving_free :
    (http_addr https_addr : List ℕ) (w : World)
    → (http_addr ≢ []) ⊎ (https_addr ≢ [])
    → has_err w.self.chan w.store ≡ false
    → w.self.chan.deferfirst ≡ none
    → w.self.chan.deferlast ≡ none
    → begin_serving http_addr https_addr w ≡ returned (armed w)
unfolding begin_serving defer_first defer_last
begin_serving_free http_addr https_addr w given live first last = ground arith

begin_serving_set :
    (http_addr https_addr : List ℕ) (w : World)
    → (http_addr ≢ []) ⊎ (https_addr ≢ [])
    → has_err w.self.chan w.store ≡ false
    → w.self.chan.deferfirst ≡ some shut_down
    → begin_serving http_addr https_addr w ≡ panicked (of_superchan deferfirst_already_set) w
unfolding begin_serving defer_first
begin_serving_set http_addr https_addr w given live first = ground arith

-- What a call that goes on to serve has found.
pub serving_inv :
    (stat : List ℕ → Option ℕ) (http_addr https_addr cert key : List ℕ) (w v : World)
    (https http : Bool)
    → listen_and_serve_all stat http_addr https_addr cert key w ≡ serving v https http
    → (check stat (has_err w.self.chan w.store) http_addr https_addr cert key ≡ none)
      × (begin_serving http_addr https_addr (record w { self = apply_entry w.self }) ≡ returned v)
unfolding listen_and_serve_all
serving_inv stat http_addr https_addr cert key w v https http h = ground arith

pub starts_https-Acceptable :
    (stat : List ℕ → Option ℕ) (http_addr https_addr cert key : List ℕ)
    → Acceptable stat http_addr https_addr cert key
    → starts_https https_addr cert key ≡ not (is_empty key)
starts_https-Acceptable stat http_addr https_addr cert key a = ground arith

listen_and_serve_all_accepted :
    (stat : List ℕ → Option ℕ) (http_addr https_addr cert key : List ℕ) (w : World)
    → has_err w.self.chan w.store ≡ false
    → w.self.chan.deferfirst ≡ none
    → w.self.chan.deferlast ≡ none
    → Acceptable stat http_addr https_addr cert key
    → listen_and_serve_all stat http_addr https_addr cert key w
      ≡ serving
          (armed (record w { self = apply_entry w.self }))
          (not (is_empty key))
          (not (is_empty http_addr))
unfolding listen_and_serve_all
listen_and_serve_all_accepted stat http_addr https_addr cert key w live first last a =
    let same = apply_entry-chan w.self in
    rw
      (
        listen_and_serve_all,
        Acceptable-check stat (has_err w.self.chan w.store) http_addr https_addr cert key (live, a),
        begin_serving_free http_addr https_addr (record w { self = apply_entry w.self }) a.0
            (rw same live) (rw same first) (rw same last),
      )
      (ap
        (λ b. serving (armed (record w { self = apply_entry w.self })) b (not (is_empty http_addr)))
        (starts_https-Acceptable stat http_addr https_addr cert key a))

-- On a server whose context is live and whose superchan has no function deferred first or last,
-- ListenAndServeAll goes on to serve exactly if one address is given and either no certificate and key
-- or both, with an https address and with files that are there. It has then put the entry middleware on
-- top and deferred the shutdown first and the end of its wait last, and it starts an https listener
-- if a key is given and an http listener if an http address is: with an https address alone, and no
-- certificate, it starts none.
pub listen_and_serve_all_iff :
    (stat : List ℕ → Option ℕ) (http_addr https_addr cert key : List ℕ) (w : World)
    → has_err w.self.chan w.store ≡ false
    → w.self.chan.deferfirst ≡ none
    → w.self.chan.deferlast ≡ none
    → ((listen_and_serve_all stat http_addr https_addr cert key w
          ≡ serving
              (armed (record w { self = apply_entry w.self }))
              (not (is_empty key))
              (not (is_empty http_addr)))
        ↔ Acceptable stat http_addr https_addr cert key)
      × ((https_addr ≡ [])
          ⊎ (listen_and_serve_all stat [] https_addr [] [] w
              ≡ serving (armed (record w { self = apply_entry w.self })) false false))
listen_and_serve_all_iff stat http_addr https_addr cert key w live first last = (
  (
    λ h.
        (check-Acceptable stat (has_err w.self.chan w.store) http_addr https_addr cert key
          (serving_inv stat http_addr https_addr cert key w _ _ _ h).0).1,
    listen_and_serve_all_accepted stat http_addr https_addr cert key w live first last,
  ),
  alone https_addr,
)
  where
    alone :
        (a : List ℕ)
        → (a ≡ [])
          ⊎ (listen_and_serve_all stat [] a [] [] w
              ≡ serving (armed (record w { self = apply_entry w.self })) false false)
    alone [] = inl refl
    alone (c ∷ a) =
        inr (listen_and_serve_all_accepted stat [] (c ∷ a) [] [] w live first last (ground arith))

listen_panicked_of :
    (stat : List ℕ → Option ℕ) (http_addr https_addr cert key : List ℕ) (w v : World)
    (p : HttpPanic)
    → check stat (has_err w.self.chan w.store) http_addr https_addr cert key ≡ none
    → begin_serving http_addr https_addr (record w { self = apply_entry w.self }) ≡ panicked p v
    → listen_and_serve_all stat http_addr https_addr cert key w ≡ listen_panicked p v
unfolding listen_and_serve_all
listen_panicked_of stat http_addr https_addr cert key w v p h e = ground arith

listen_and_serve_all-armed :
    (stat : List ℕ → Option ℕ) (http_addr https_addr cert key : List ℕ) (w : World)
    → check stat (has_err w.self.chan w.store) http_addr https_addr cert key ≡ none
    → let v = armed (record w { self = apply_entry w.self }) in
      listen_and_serve_all stat http_addr https_addr cert key v
      ≡ listen_panicked (of_superchan deferfirst_already_set) v
listen_and_serve_all-armed stat http_addr https_addr cert key w passed =
    let (live, (given, _)) =
      check-Acceptable stat (has_err w.self.chan w.store) http_addr https_addr cert key passed in
    let v : World = armed (record w { self = apply_entry w.self }) in
    let same : has_err v.self.chan v.store ≡ has_err w.self.chan w.store =
      ap (λ (c : Superchan Deferred ℕ). has_err c w.store) (apply_entry-chan w.self) in
    let bare : record v { self = apply_entry v.self } ≡ v =
      ap (λ (s : HttpServer). record v { self = s })
        (apply_entry_absent v.self (apply_entry-entrypoint w.self)) in
    listen_panicked_of stat http_addr https_addr cert key v v (of_superchan deferfirst_already_set)
      (ap (λ b. check stat b http_addr https_addr cert key) same ∙ passed)
      (ap (begin_serving http_addr https_addr) bare
        ∙ begin_serving_set http_addr https_addr v given (same ∙ live) refl)

-- A second call of ListenAndServeAll with the same arguments, while the first serves and the context is
-- still live, panics, because the superchan has a function deferred first.
pub listen_and_serve_all_twice :
    (stat : List ℕ → Option ℕ) (http_addr https_addr cert key : List ℕ) (w v : World)
    (https http : Bool)
    → listen_and_serve_all stat http_addr https_addr cert key w ≡ serving v https http
    → listen_and_serve_all stat http_addr https_addr cert key v
      ≡ listen_panicked (of_superchan deferfirst_already_set) v
listen_and_serve_all_twice stat http_addr https_addr cert key w v https http h =
    let (passed, began) = serving_inv stat http_addr https_addr cert key w v https http h in
    let (_, _, is) =
      begin_serving-armed http_addr https_addr (record w { self = apply_entry w.self }) v began in
    subst
      (λ (x : World).
        listen_and_serve_all stat http_addr https_addr cert key x
        ≡ listen_panicked (of_superchan deferfirst_already_set) x)
      is (listen_and_serve_all-armed stat http_addr https_addr cert key w passed)
