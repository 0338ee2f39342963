-- ===== src/Journal/Fields/RoundTrip.antt =====
-- What appendVariable writes, read back by the reader of the journal's protocol.
use mostly.Common.{
  ℕ, suc, ◌^◌, ◌<◌, ◌≡◌, refl, ap, sym, ◌∙◌, List, [], ◌∷◌, ◌++◌, true, false, ◌||◌, none, some,
  arith, length, append_assoc, append-nil,
}
use mostly.Decimal.{ℤ, itoa, IsInt64, length-itoa-lt}
use mostly.Journal.Fields.{
  check_bytes, name_invalid, valid_var_name, complains, message_data, priority_name, message_name,
  newline, has_newline, append_variable, append_variables,
}
use mostly.Journal.Fields.Names.{IsNameByte, All, valid_var_name_iff}
use mostly.Journal.Fields.Reading.{
  until, Field, read_field, read_fields, NoMark, read_field_line, line_value_lem,
  read_field-append_variable,
}

-- Names that validVarName accepts, and lengths that fit in 64 bits.
abbrev pub Readable : List Field → Type 0
Readable [] = Unit {0}
Readable ((name, value) ∷ vars) =
    (valid_var_name name ≡ none) × (length value < 2 ^ 64) × Readable vars

IsNameByte-NoMark : (name : List ℕ) → All IsNameByte name → NoMark name
IsNameByte-NoMark [] h = ground arith
IsNameByte-NoMark (c ∷ name) (byte, h) = ground (arith, IsNameByte-NoMark name h)

valid_var_name-NoMark : (name : List ℕ) → valid_var_name name ≡ none → NoMark name
valid_var_name-NoMark name is = IsNameByte-NoMark name ((valid_var_name_iff name).0.0 is).2

append_variable-append :
    (w name value : List ℕ) → append_variable w name value ≡ w ++ append_variable [] name value
unfolding append_variable
append_variable-append w name value = ground arith

append_variables-append :
    (w : List ℕ) (vars : List Field) → append_variables w vars ≡ w ++ append_variables [] vars
unfolding append_variables
append_variables-append w [] = sym (append-nil w)
append_variables-append w ((k, v) ∷ vars) =
    append_variables-append (append_variable w k v) vars
    ∙ (ap (λ l. l ++ append_variables [] vars) (append_variable-append w k v)
        ∙ (append_assoc w (append_variable [] k v) (append_variables [] vars)
            ∙ ap (◌++◌ w) (sym (append_variables-append (append_variable [] k v) vars))))

read_fields_step :
    (rounds : ℕ) (text after : List ℕ) (field : Field) (fields : List Field)
    → read_field text ≡ some (field, after)
    → read_fields rounds after ≡ some fields
    → read_fields (suc rounds) text ≡ some (field ∷ fields)
unfolding read_fields until
read_fields_step rounds [] after field fields h k = cc
read_fields_step rounds (c ∷ text) after field fields h k = rw (h, read_fields) (rw k)

read_fields-append_variables :
    (vars : List Field)
    → Readable vars
    → read_fields (suc (length vars)) (append_variables [] vars) ≡ some vars
read_fields-append_variables [] h = unfold read_fields append_variables in refl
read_fields-append_variables ((k, v) ∷ vars) (hk, hv, h) =
    read_fields_step (suc (length vars)) _ (append_variables [] vars) (k, v) vars
      (unfold append_variables in
        rw (append_variables-append (append_variable [] k v) vars) (
          read_field-append_variable k (valid_var_name-NoMark k hk) v (append_variables [] vars)
            hv))
      (read_fields-append_variables vars h)

-- Whatever a message holds, newlines too, a reader of the two forms of a field in the journal's native
-- protocol, `NAME=value` and the name with a length, finds in the data of Send the fields PRIORITY,
-- with the priority in decimal, MESSAGE, with the message, and the given variables, each with its
-- value and in their order, and nothing else. The priority is an int64, validVarName accepts the
-- names of the variables, and lengths fit in 64 bits.
pub read_fields-message_data :
    (message : List ℕ) (priority : ℤ) (vars : List Field)
    → IsInt64 priority
    → length message < 2 ^ 64
    → Readable vars
    → read_fields (suc (suc (suc (length vars)))) (message_data message priority vars)
      ≡ some ((priority_name, itoa priority) ∷ (message_name, message) ∷ vars)
unfolding message_data append_variables valid_var_name check_bytes
read_fields-message_data message priority vars hp hm h =
    read_fields-append_variables ((priority_name, itoa priority) ∷ (message_name, message) ∷ vars)
      (refl, length-itoa-lt priority hp, (refl, hm, h))

check_bytes-eq_sign : (a b : List ℕ) → check_bytes (a ++ b'=' ∷ b) ≡ some name_invalid
unfolding check_bytes
check_bytes-eq_sign [] b = refl
check_bytes-eq_sign (c ∷ a) b = ground (arith, check_bytes-eq_sign a b)

complains-eq_sign : (a b : List ℕ) → complains (a ++ b'=' ∷ b) ≡ true
unfolding complains valid_var_name
complains-eq_sign [] b = refl
complains-eq_sign (c ∷ a) b = ground (arith, check_bytes-eq_sign (c ∷ a) b)

has_newline-append : (a b : List ℕ) → has_newline (a ++ b) ≡ has_newline a || has_newline b
has_newline-append [] b = refl
has_newline-append (c ∷ a) b = ground (arith, has_newline-append a b)

-- A name with an `=` in it is complained of and written all the same. The journal then sees another
-- field: its name ends before the `=`, and the rest of the given name is part of its value. Neither
-- what stands behind the `=` in the name nor the value holds a newline.
pub append_variable_invalid_name :
    (a b value rest : List ℕ)
    → NoMark a
    → has_newline b ≡ false
    → has_newline value ≡ false
    → (complains (a ++ b'=' ∷ b) ≡ true)
      × (read_field (append_variable [] (a ++ b'=' ∷ b) value ++ rest)
          ≡ some ((a, b ++ b'=' ∷ value), rest))
unfolding append_variable
append_variable_invalid_name a b value rest ha hb hv = (
  complains-eq_sign a b,
  ground (
    arith,
    read_field_line a ha ((b ++ b'=' ∷ value) ++ newline ∷ rest),
    line_value_lem a ha (b ++ b'=' ∷ value) rest,
    has_newline-append b (b'=' ∷ value),
    append_assoc a (b'=' ∷ b) (b'=' ∷ (value ++ newline ∷ [])),
    append_assoc a (b'=' ∷ (b ++ b'=' ∷ (value ++ newline ∷ []))) rest,
    append_assoc b (b'=' ∷ (value ++ newline ∷ [])) rest,
    append_assoc b (b'=' ∷ value) (newline ∷ rest),
    append_assoc value (newline ∷ []) rest,
  ),
)
