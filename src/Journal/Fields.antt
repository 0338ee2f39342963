-- ===== src/Journal/Fields.antt =====
-- journalwriter/journal.go: validVarName and appendVariable. A string is the list of its bytes.
pub mod Names
pub mod Reading
pub mod RoundTrip
use mostly.Common.{
  ℕ, List, [], ◌∷◌, ◌++◌, Bool, true, false, not, ◌&&◌, ◌||◌, Option, none, some, length, leb, ◌==◌,
  if◌then◌else◌,
}
use mostly.Decimal.{ℤ, itoa}
use mostly.Ncode.Encoding.{put_uint64}

-- ErrVarNameEmpty, ErrVarNameUnderscore and ErrVarNameInvalid.
pub data NameError : Type 0 where
  name_empty name_underscore name_invalid : NameError

-- The test of the loop. It is made of each rune; a byte from 128 on belongs to a rune that fails it.
abbrev pub is_name_byte : ℕ → Bool
is_name_byte c = (leb b'A' c && leb c b'Z') || ((leb b'0' c && leb c b'9') || (c == b'_'))

unfoldable pub check_bytes : List ℕ → Option NameError
check_bytes [] = none
check_bytes (c ∷ name) =
    let rest = check_bytes name in if not (is_name_byte c) then some name_invalid else rest

unfoldable pub valid_var_name : List ℕ → Option NameError
unfolding check_bytes
valid_var_name [] = some name_empty
valid_var_name (c ∷ name) = if c == b'_' then some name_underscore else check_bytes (c ∷ name)

abbrev pub newline : ℕ
newline = 10

-- strings.ContainsRune(value, '\n').
abbrev pub has_newline : List ℕ → Bool
has_newline [] = false
has_newline (c ∷ value) = (c == newline) || has_newline value

-- The buffer behind the call. The check of the name only decides on a message to standard error.
unfoldable pub append_variable : List ℕ → List ℕ → List ℕ → List ℕ
append_variable w name value =
    if has_newline value
    then w ++ (name ++ newline ∷ (put_uint64 (length value) ++ (value ++ newline ∷ [])))
    else w ++ (name ++ b'=' ∷ (value ++ newline ∷ []))

-- What the call prints to standard error: whether it complains of the name.
unfoldable pub complains : List ℕ → Bool
unfolding valid_var_name
complains name = elim (valid_var_name name) [ none ↦ false | some e ↦ true ]

unfoldable pub append_variables : List ℕ → List (List ℕ × List ℕ) → List ℕ
append_variables w [] = w
append_variables w ((k, v) ∷ vars) = append_variables (append_variable w k v) vars

abbrev pub priority_name : List ℕ
priority_name = b'P' ∷ b'R' ∷ b'I' ∷ b'O' ∷ b'R' ∷ b'I' ∷ b'T' ∷ b'Y' ∷ []

abbrev pub message_name : List ℕ
message_name = b'M' ∷ b'E' ∷ b'S' ∷ b'S' ∷ b'A' ∷ b'G' ∷ b'E' ∷ []

-- The data that Send builds; `vars` are the entries of the map in the order of its iteration.
unfoldable pub message_data : List ℕ → ℤ → List (List ℕ × List ℕ) → List ℕ
unfolding append_variables
message_data message priority vars =
    append_variables
      (append_variable (append_variable [] priority_name (itoa priority)) message_name message) vars
