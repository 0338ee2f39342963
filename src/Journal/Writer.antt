-- ===== src/Journal/Writer.antt =====
-- journalwriter/journalwriter.go and superlog/superlog.go.
pub mod Laws
pub mod Reading
use mostly.Common.{
  ℕ, zero, List, [], ◌∷◌, ◌++◌, Bool, true, false, not, ◌||◌, Option, none, some, length,
  if◌then◌else◌,
}
use mostly.Decimal.{ℤ, pos}
use mostly.Journal.Send.{Effect, SendError, Os, send}

abbrev pub pri_emerg : ℤ
pri_emerg = pos 0

abbrev pub pri_info : ℤ
pri_info = pos 6

-- FallbackWriter (whether it is not nil), DontLogErrors and DontFallback.
pub record Settings : Type 0 where
  pub has_fallback : Bool
  pub dont_log_errors : Bool
  pub dont_fallback : Bool

-- What is written to the fallback: the line about the error, whose text `error_text` gives, or the
-- log's own bytes.
pub data FallbackWrite : Type 0 where
  error_line : List ℕ → FallbackWrite
  log_bytes : List ℕ → FallbackWrite

pub record Written : Type 0 where
  pub effects : List Effect
  pub fallback : List FallbackWrite
  pub count : ℕ
  pub error : Option SendError

-- JournalWriter.Write for a writer of the given priority.
unfoldable pub write : (SendError → List ℕ) → Settings → Os → ℤ → List ℕ → Written
write error_text settings os priority b =
    let (es, err) = send os b priority [] in
    elim err [
      | none ↦ record { effects = es; fallback = []; count = length b; error = none }
      | some e ↦ record {
        effects = es;
        fallback =
            if settings.has_fallback
            then (if settings.dont_log_errors then [] else error_line (error_text e) ∷ [])
              ++ log_bytes b ∷ []
            else [];
        count = 0;
        error = some e;
      }
    ]

-- The writers that are handed out: os.Stderr, a JournalWriter of a priority, and a syslog writer.
pub data Sink : Type 0 where
  stderr : Sink
  journal : ℤ → Sink
  syslog_writer : ℕ → Sink

abbrev pub is_zero : ℤ → Bool
is_zero (pos zero) = true
is_zero _ = false

-- GetJournalOrStderr, from what Enabled answers.
unfoldable pub get_journal_or_stderr : Bool → ℤ → Sink
get_journal_or_stderr enabled p =
    let q = if is_zero p then pri_info else p in if not enabled then stderr else journal q

-- The error of superlog.New: that of syslog.Dial, or "journal not enabled".
pub data NewError : Type 0 where
  dial_error : ℕ → NewError
  journal_not_enabled : NewError

abbrev pub non_empty : List ℕ → Bool
non_empty [] = false
non_empty (c ∷ s) = true

-- superlog.New. `dial` is what syslog.Dial returns for a network and an address: a writer or nil, and
-- an error or nil. `enabled` is what journalwriter.Enabled answers.
unfoldable pub new_sink :
    (List ℕ → List ℕ → Option ℕ × Option ℕ)
    → Bool
    → ℤ
    → Bool
    → Bool
    → List ℕ
    → Sink × Option NewError
new_sink dial enabled p usesyslog usejournald remotesyslog =
    if usesyslog || non_empty remotesyslog
    then (let netw = if non_empty remotesyslog then b'u' ∷ b'd' ∷ b'p' ∷ [] else [] in
        let (syslogw, err) = dial netw remotesyslog in
        let reported : Option NewError = elim err [ none ↦ none | some e ↦ some (dial_error e) ] in
        elim syslogw [ none ↦ (stderr, reported) | some w ↦ (syslog_writer w, reported) ])
    else if usejournald
    then (if not enabled then (stderr, some journal_not_enabled) else (journal p, none))
    else (stderr, none)
