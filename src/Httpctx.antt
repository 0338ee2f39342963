-- ===== src/Httpctx.antt =====
-- httpserver/httpctx/httpctx.go, and the contexts that httpserver makes for a listener and a connection
-- (basectxfn and connctxfun).
mod Tests
use mostly.Common.{
  ℕ, ◌≡◌, ◌≢◌, ◌↔◌, ◌⊎◌, inl, inr, refl, List, [], ◌∷◌, Bool, true, false, Option, none, some, ◌==◌,
  if◌then◌else◌, arith,
}

-- A connection by its dynamic type.
pub data Conn : Type 0 where
  tcp tls other_conn : ℕ → Conn

-- The keys of the package, and any other.
pub data Key : Type 0 where
  listener_key uuid_key conn_key : Key
  other_key : ℕ → Key

-- A value by its dynamic type.
pub data Value : Type 0 where
  an_int : ℕ → Value
  a_conn : Conn → Value
  a_listener : ℕ → Value
  other_value : ℕ → Value

-- What context.WithValue put into a context, the newest first.
abbrev pub Values : Type 0
Values = List (Key × Value)

abbrev pub same_key : Key → Key → Bool
same_key listener_key listener_key = true
same_key uuid_key uuid_key = true
same_key conn_key conn_key = true
same_key (other_key a) (other_key b) = a == b
same_key _ _ = false

-- `ctx.Value(key)`; `none` is nil.
unfoldable pub value_of : Values → Key → Option Value
value_of [] key = none
value_of ((k, v) ∷ ctx) key = if same_key k key then some v else value_of ctx key

-- `v.(int)`, whose failure panics (`none`).
abbrev pub as_int : Value → Option ℕ
as_int (an_int n) = some n
as_int (a_conn c) = none
as_int (a_listener l) = none
as_int (other_value o) = none

unfoldable pub get_uuid : Values → Option ℕ
get_uuid ctx = elim (value_of ctx uuid_key) [ none ↦ some 0 | some v ↦ as_int v ]

-- The assertions with `ok`, by their value, which is nil with a false `ok`.
abbrev pub as_tcp_conn : Value → Option ℕ
as_tcp_conn (a_conn (tcp c)) = some c
as_tcp_conn _ = none

abbrev pub as_tls_conn : Value → Option ℕ
as_tls_conn (a_conn (tls c)) = some c
as_tls_conn _ = none

-- Every connection implements net.Conn.
abbrev pub as_conn : Value → Option Conn
as_conn (a_conn c) = some c
as_conn _ = none

abbrev pub as_listener : Value → Option ℕ
as_listener (a_listener l) = some l
as_listener _ = none

-- GetAny at the type that an assertion is for.
unfoldable pub get_any : {T : Type 0} → (Value → Option T) → Values → Key → Option T
get_any as_t ctx tag = elim (value_of ctx tag) [ none ↦ none | some v ↦ as_t v ]

unfoldable pub get_tcp_conn : Values → Option ℕ
get_tcp_conn ctx = elim (value_of ctx conn_key) [ none ↦ none | some v ↦ as_tcp_conn v ]

unfoldable pub get_tls_conn : Values → Option ℕ
get_tls_conn ctx = elim (value_of ctx conn_key) [ none ↦ none | some v ↦ as_tls_conn v ]

unfoldable pub get_conn : Values → Option Conn
get_conn ctx = elim (value_of ctx conn_key) [ none ↦ none | some v ↦ as_conn v ]

unfoldable pub get_listener : Values → Option ℕ
get_listener ctx = elim (value_of ctx listener_key) [ none ↦ none | some v ↦ as_listener v ]

-- basectxfn, for a listener.
unfoldable pub base_context : Values → ℕ → Values
base_context basectx listener = (listener_key, a_listener listener) ∷ basectx

-- connctxfun, where `uuid` is what UUIDFunc returns for the connection.
unfoldable pub conn_context : ℕ → Values → Conn → Values
conn_context uuid ctx c = (conn_key, a_conn c) ∷ (uuid_key, an_int uuid) ∷ ctx

-- What handlers and middlewares put on top, under keys of their own.
abbrev pub put_others : List (ℕ × Value) → Values → Values
put_others [] ctx = ctx
put_others ((k, v) ∷ more) ctx = (other_key k, v) ∷ put_others more ctx

value_of-put_others :
    (others : List (ℕ × Value)) (ctx : Values)
    → (value_of (put_others others ctx) uuid_key ≡ value_of ctx uuid_key)
      × (value_of (put_others others ctx) conn_key ≡ value_of ctx conn_key)
      × (value_of (put_others others ctx) listener_key ≡ value_of ctx listener_key)
unfolding value_of
value_of-put_others [] ctx = (refl, refl, refl)
value_of-put_others ((k, v) ∷ more) ctx = value_of-put_others more ctx

-- What stands under the package's keys.
values_there :
    (uuid listener : ℕ) (basectx : Values) (c : Conn) (others : List (ℕ × Value))
    → let ctx = put_others others (conn_context uuid (base_context basectx listener) c) in
      (value_of ctx uuid_key ≡ some (an_int uuid))
      × (value_of ctx conn_key ≡ some (a_conn c))
      × (value_of ctx listener_key ≡ some (a_listener listener))
unfolding conn_context base_context value_of
values_there uuid listener basectx c others =
    value_of-put_others others (conn_context uuid (base_context basectx listener) c)

tcp_only : (c : Conn) (n : ℕ) → (as_tcp_conn (a_conn c) ≡ some n) ↔ (c ≡ tcp n)
tcp_only c n = ground arith

tls_only : (c : Conn) (n : ℕ) → (as_tls_conn (a_conn c) ≡ some n) ↔ (c ≡ tls n)
tls_only c n = ground arith

-- In the context of a request, each getter returns what the server put there, whatever others have put
-- on top under keys of their own: the identifier, the listener, the connection, and of the getters for
-- tcp and tls the one of the connection's type returns it and the other nothing.
pub getters :
    (uuid listener : ℕ) (basectx : Values) (c : Conn) (others : List (ℕ × Value))
    → let ctx = put_others others (conn_context uuid (base_context basectx listener) c) in
      (get_uuid ctx ≡ some uuid)
      × (get_listener ctx ≡ some listener)
      × (get_conn ctx ≡ some c)
      × ((n : ℕ) → (get_tcp_conn ctx ≡ some n) ↔ (c ≡ tcp n))
      × ((n : ℕ) → (get_tls_conn ctx ≡ some n) ↔ (c ≡ tls n))
      × (get_any as_conn ctx conn_key ≡ get_conn ctx)
unfolding get_uuid get_conn get_listener get_tcp_conn get_tls_conn get_any
getters uuid listener basectx c others =
    let (u, k, l) = values_there uuid listener basectx c others in
    (
      rw (get_uuid, u) refl,
      rw (get_listener, l) refl,
      rw (get_conn, k) refl,
      λ n. rw (get_tcp_conn, k) (tcp_only c n),
      λ n. rw (get_tls_conn, k) (tls_only c n),
      rw (get_any, get_conn, k) refl,
    )
