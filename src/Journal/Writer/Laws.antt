-- ===== src/Journal/Writer/Laws.antt =====
-- Where log bytes end up.
use mostly.Common.{
  Option-cases, zero, suc, ℕ, ◌≡◌, ◌≢◌, ◌↔◌, refl, ◌⊎◌, inl, inr, List, [], ◌∷◌, ◌++◌, Bool, true,
  false, Option, none, some, arith, length, if◌then◌else◌,
}
use mostly.Decimal.{ℤ, pos, negsuc}
use mostly.Journal.Fields.{message_data}
use mostly.Journal.Send.{SendError, Os, send}
use mostly.Journal.Send.Laws.{delivered, send_delivers}
use mostly.Journal.Writer.{Settings, error_line, log_bytes, write, get_journal_or_stderr, new_sink}

-- Write either delivers the bytes to the journal with the writer's priority, reports their number and
-- no error and leaves the fallback alone, or it delivers nothing, reports 0 and the error of Send and
-- writes the bytes to the fallback if there is one, behind a line about the error unless
-- DontLogErrors is set. DontFallback makes no difference.
pub write_branches :
    (error_text : SendError → List ℕ) (settings : Settings) (os : Os) (priority : ℤ) (b : List ℕ)
    → let w = write error_text settings os priority b in
      (((delivered w.effects ≡ message_data b priority [] ∷ [])
          × (w.count ≡ length b)
          × (w.error ≡ none)
          × (w.fallback ≡ []))
        ⊎ ((e : SendError) × ((send os b priority []).1 ≡ some e)
            × (delivered w.effects ≡ [])
            × (w.count ≡ 0)
            × (w.error ≡ some e)
            × (w.fallback ≡ (
                if settings.has_fallback
                then (if settings.dont_log_errors then [] else error_line (error_text e) ∷ [])
                  ++ log_bytes b ∷ []
                else []))))
      × ((other : Bool)
          → write error_text (record settings { dont_fallback = other }) os priority b ≡ w)
unfolding write
write_branches error_text settings os priority b = elim (Option-cases (send os b priority []).1) [
  | inl ok ↦ (inl (ground (arith, send_delivers os b priority [])), λ other. refl)
  | inr (e, q) ↦
      (inr (e, q, nothing_delivered e q, ground arith, ground arith, ground arith), λ other. refl)
]
  where
    nothing_delivered :
        (e : SendError)
        → (send os b priority []).1 ≡ some e
        → delivered (write error_text settings os priority b).effects ≡ []
    nothing_delivered e q = ground (arith, send_delivers os b priority [])

-- Where the journal is enabled and asked for and no syslog is, superlog.New hands out the writer that
-- GetJournalOrStderr gives for the same priority exactly if that priority is not 0: only the latter
-- replaces 0 by INFO.
pub new_sink-get_journal_or_stderr :
    (dial : List ℕ → List ℕ → Option ℕ × Option ℕ) (p : ℤ)
    → ((new_sink dial true p false true []).0 ≡ get_journal_or_stderr true p) ↔ (p ≢ pos 0)
unfolding get_journal_or_stderr new_sink
new_sink-get_journal_or_stderr dial (pos zero) = ((λ e. cc), λ h. absurd (h refl))
new_sink-get_journal_or_stderr dial (pos (suc n)) = ((λ e q. cc), λ h. refl)
new_sink-get_journal_or_stderr dial (negsuc n) = ((λ e q. cc), λ h. refl)
