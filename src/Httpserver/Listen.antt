-- ===== src/Httpserver/Listen.antt =====
-- httpserver/httpserver.go: ListenAndServeAll with its checks, and listenAndServe up to the point where
-- it starts its listeners. What follows is in Httpserver.Serve.
pub mod Laws
use mostly.Common.{
  ℕ, List, [], ◌∷◌, Bool, true, false, not, ◌&&◌, Option, none, some, if◌then◌else◌,
}
use mostly.Superchan.State.{ok, panic, defer_first, defer_last, has_err}
use mostly.Httpserver.State.{
  shut_down, stop_waiting, World, HttpServer, HttpPanic, no_listen_addresses, of_superchan, Ran,
  returned, panicked,
}
use mostly.Httpserver.Routes.{apply_entry}

pub data ListenError : Type 0 where
  already_cancelled no_addresses cert_and_key_together no_https_addr : ListenError
  key_not_found cert_not_found : ℕ → ListenError

abbrev pub is_empty : List ℕ → Bool
is_empty [] = true
is_empty (c ∷ s) = false

-- The checks of ListenAndServeAll, in order; `done` is `s.Err() != nil`, and `stat` is the error of
-- os.Stat.
unfoldable pub check :
    (List ℕ → Option ℕ) → Bool → List ℕ → List ℕ → List ℕ → List ℕ → Option ListenError
check stat done http_addr https_addr cert key =
    if done
    then some already_cancelled
    else if is_empty http_addr && is_empty https_addr
    then some no_addresses
    else if not (is_empty cert) && is_empty key
    then some cert_and_key_together
    else if not (is_empty key) && is_empty cert
    then some cert_and_key_together
    else if not (is_empty key) && is_empty https_addr
    then some no_https_addr
    else if is_empty key
    then none
    else elim (stat key) [
      | some e ↦ some (key_not_found e)
      | none ↦ elim (stat cert) [ some e ↦ some (cert_not_found e) | none ↦ none ]
    ]

-- Which listeners listenAndServe starts.
abbrev pub starts_https : List ℕ → List ℕ → List ℕ → Bool
starts_https https_addr cert key =
    not (is_empty key) && (not (is_empty cert) && not (is_empty https_addr))

abbrev pub starts_http : List ℕ → Bool
starts_http http_addr = not (is_empty http_addr)

-- listenAndServe up to its goroutines.
unfoldable pub begin_serving : List ℕ → List ℕ → World → Ran World
begin_serving http_addr https_addr w =
    if is_empty http_addr && is_empty https_addr
    then panicked no_listen_addresses w
    else elim (defer_first shut_down w.self.chan w.store) [
      | panic p ↦ panicked (of_superchan p) w
      | ok c ↦ elim (defer_last stop_waiting c w.store) [
        | panic p ↦ panicked (of_superchan p) (record w { self = record w.self { chan = c } })
        | ok d ↦ returned (record w { self = record w.self { chan = d } })
      ]
    ]

-- ListenAndServeAll returns an error, panics, or goes on to serve with the listeners that it starts,
-- https and http.
pub data Listened : Type 0 where
  refused : ListenError → Listened
  listen_panicked : HttpPanic → World → Listened
  serving : World → Bool → Bool → Listened

unfoldable pub listen_and_serve_all :
    (List ℕ → Option ℕ) → List ℕ → List ℕ → List ℕ → List ℕ → World → Listened
unfolding begin_serving
listen_and_serve_all stat http_addr https_addr cert key w =
    elim (check stat (has_err w.self.chan w.store) http_addr https_addr cert key) [
      | some e ↦ refused e
      | none ↦ elim (begin_serving http_addr https_addr (record w { self = apply_entry w.self })) [
        | panicked p v ↦ listen_panicked p v
        | returned v ↦ serving v (starts_https https_addr cert key) (starts_http http_addr)
      ]
    ]
