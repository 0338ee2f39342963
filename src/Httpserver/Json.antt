-- ===== src/Httpserver/Json.antt =====
-- httpserver/httpserver.go: ServeJson and ServeJsonIndent, as what they write to a response.
use mostly.Common.{ℕ, List, [], ◌∷◌, Bool, true, false, Option, none, some}

-- A call on the ResponseWriter.
pub data Write : Type 0 where
  set_content_type_json : Write
  write_header : ℕ → Write
  write_body : List ℕ → Write

-- How a json.Encoder is set up: whether it indents by two spaces, and what SetEscapeHTML was called
-- with, if it was.
pub record Setting : Type 0 where
  pub indented : Bool
  pub escape_html : Option Bool

-- Encode writes the whole of a value, or nothing where it returns an error (`none`), which is dropped.
module _ {V : Type 0} (encode : Setting → V → Option (List ℕ)) where
  unfoldable pub encoded : Setting → V → List Write
  encoded setting v = elim (encode setting v) [ none ↦ [] | some b ↦ write_body b ∷ [] ]

  -- `escape_html` is EscapeHTML, `none` where it is nil.
  unfoldable pub serve_json : Option Bool → ℕ → V → List Write
  unfolding encoded
  serve_json escape_html code v =
      set_content_type_json
      ∷ write_header code
      ∷ encoded (record { indented = false; escape_html = escape_html }) v

  unfoldable pub serve_json_indent : Option Bool → ℕ → V → List Write
  unfolding encoded
  serve_json_indent escape_html code v =
      set_content_type_json
      ∷ write_header code
      ∷ encoded (record { indented = true; escape_html = escape_html }) v
