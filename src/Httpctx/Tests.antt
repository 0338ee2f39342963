-- ===== src/Httpctx/Tests.antt =====
-- The getters on the context of a request.
use mostly.Common.{◌≡◌, refl, [], ◌∷◌, none}
use mostly.Httpctx.{
  tls, other_value, Values, value_of, put_others, uuid_key, get_uuid, base_context, conn_context,
}

-- A value of another type under the key of the identifier is a panic.
bad_uuid : get_uuid ((uuid_key, other_value 3) ∷ []) ≡ none
unfolding get_uuid value_of
bad_uuid = refl

abbrev request : Values
request = put_others ((4, other_value 9) ∷ []) (conn_context 1007 (base_context [] 80) (tls 6))
