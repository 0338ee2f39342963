-- ===== src/Journal/Tests.antt =====
-- Runs of the journal's functions, and the theorems at concrete messages.
use Prim.Native.Char.{code}
use Prim.Native.String.{String}
use mostly.Common.{ℕ, ◌≤◌, ◌≡◌, ◌≢◌, ◌↔◌, refl, List, [], ◌∷◌, true, false, none, some, arith}
use mostly.Decimal.{pos, negsuc, itoa}
use mostly.Journal.Fields.{valid_var_name, check_bytes}
use mostly.Journal.Fields.{append_variable, message_data, priority_name, message_name}
use mostly.Journal.Fields.Reading.{read_fields}
use mostly.Journal.Fields.RoundTrip.{read_fields-message_data}
use mostly.Journal.Send.{op_error, syscall_error, emsgsize, other_error, Os, send}
use mostly.Journal.Send.Laws.{delivered, open_after, too_large, send_leaves_open}
use mostly.Journal.Writer.{Settings, write, error_line, log_bytes}
use mostly.Journal.Writer.Reading.{write-read_fields}
use mostly.Journal.Send.{SendError}
use mostly.Common.{◌⊎◌}

abbrev bytes : String → List ℕ
bytes String.[] = []
bytes (String.◌∷◌ c s) = code c ∷ bytes s

single_line : append_variable [] (bytes "UNIT") (bytes "web") ≡ bytes "UNIT=web\n"
unfolding append_variable
single_line = refl

minus_twelve : itoa (negsuc 11) ≡ bytes "-12"
unfolding itoa
minus_twelve = refl

-- A message of two lines.
read_fields-message_data_example :
    read_fields 4 (message_data (bytes "a\nb") (pos 6) ((bytes "UNIT", bytes "web") ∷ []))
    ≡ some (
        (priority_name, itoa (pos 6))
        ∷ (message_name, bytes "a\nb")
        ∷ (bytes "UNIT", bytes "web")
        ∷ [])
unfolding valid_var_name check_bytes
read_fields-message_data_example =
    read_fields-message_data (bytes "a\nb") (pos 6) ((bytes "UNIT", bytes "web") ∷ []) (omega arith)
      (omega arith) (refl, omega arith, tt)

-- The datagram is too large, and the temporary file cannot be unlinked.
abbrev stuck_file : Os
stuck_file = record {
  connected = true;
  datagram = some (op_error (syscall_error emsgsize));
  create_temp = none;
  unlink = some (other_error 1);
  copy = none;
  pass_descriptor = none;
}

send_leaves_open_example :
    let es = (send stuck_file (bytes "hi") (pos 6) []).0 in
    ((open_after 0 es ≡ 1) ↔ (
      (too_large stuck_file ≡ true) × (stuck_file.create_temp ≡ none) × (stuck_file.unlink ≢ none)))
    × (open_after 0 es ≤ 1)
send_leaves_open_example = send_leaves_open stuck_file (bytes "hi") (pos 6) []

-- A message that is too large for a datagram goes through a file.
abbrev through_file : Os
through_file = record stuck_file { unlink = none }

abbrev with_fallback : Settings
with_fallback = record { has_fallback = true; dont_log_errors = false; dont_fallback = false }

write-read_fields_example :
    let w = write (λ e. bytes "error") with_fallback through_file (pos 6) (bytes "a\nb") in
    ((text : List ℕ) × (delivered w.effects ≡ text ∷ [])
      × (read_fields 3 text
          ≡ some ((priority_name, itoa (pos 6)) ∷ (message_name, bytes "a\nb") ∷ []))
      × (w.count ≡ 3)
      × (w.error ≡ none)
      × (w.fallback ≡ []))
    ⊎ ((e : SendError) × ((send through_file (bytes "a\nb") (pos 6) []).1 ≡ some e)
        × (delivered w.effects ≡ [])
        × (w.count ≡ 0)
        × (w.error ≡ some e)
        × (w.fallback ≡ error_line (bytes "error") ∷ log_bytes (bytes "a\nb") ∷ []))
write-read_fields_example =
    write-read_fields (λ e. bytes "error") with_fallback through_file (pos 6) (bytes "a\nb")
      (omega arith) (omega arith)
