-- ===== src/Journal/Writer/Reading.antt =====
-- What a reader of the journal finds of the bytes that are written to a JournalWriter.
use mostly.Common.{
  ℕ, ◌≡◌, ◌^◌, ◌<◌, ◌⊎◌, inl, inr, List, [], ◌∷◌, ◌++◌, none, some, length, if◌then◌else◌,
}
use mostly.Decimal.{ℤ, itoa, IsInt64}
use mostly.Journal.Fields.{message_data, priority_name, message_name}
use mostly.Journal.Fields.Reading.{read_fields}
use mostly.Journal.Fields.RoundTrip.{read_fields-message_data}
use mostly.Journal.Send.{SendError, Os, send}
use mostly.Journal.Send.Laws.{delivered}
use mostly.Journal.Writer.{Settings, error_line, log_bytes, write}
use mostly.Journal.Writer.Laws.{write_branches}

-- Bytes that are written to a JournalWriter end up in one place. Either one message is delivered, as a
-- datagram or in a file, in which a reader of the journal's protocol finds the writer's priority and
-- exactly these bytes, newlines or not, and Write reports their number and no error and leaves the
-- fallback alone; or nothing is delivered, Write reports 0 and the error of Send, and the bytes go
-- to the fallback if there is one, behind a line about the error unless DontLogErrors is set. The
-- priority is an int64 and the length fits in 64 bits.
pub write-read_fields :
    (error_text : SendError → List ℕ) (settings : Settings) (os : Os) (priority : ℤ) (b : List ℕ)
    → IsInt64 priority
    → length b < 2 ^ 64
    → let w = write error_text settings os priority b in
      ((text : List ℕ) × (delivered w.effects ≡ text ∷ [])
        × (read_fields 3 text ≡ some ((priority_name, itoa priority) ∷ (message_name, b) ∷ []))
        × (w.count ≡ length b)
        × (w.error ≡ none)
        × (w.fallback ≡ []))
      ⊎ ((e : SendError) × ((send os b priority []).1 ≡ some e)
          × (delivered w.effects ≡ [])
          × (w.count ≡ 0)
          × (w.error ≡ some e)
          × (w.fallback ≡ (
              if settings.has_fallback
              then (if settings.dont_log_errors then [] else error_line (error_text e) ∷ [])
                ++ log_bytes b ∷ []
              else [])))
write-read_fields error_text settings os priority b small fits =
    elim (write_branches error_text settings os priority b).0 [
      | inl (sent, count, fine, kept) ↦ inl (
        message_data b priority [],
        sent,
        read_fields-message_data b priority [] small fits tt,
        count,
        fine,
        kept,
      )
      | inr failed ↦ inr failed
    ]
