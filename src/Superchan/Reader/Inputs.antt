-- ===== src/Superchan/Reader/Inputs.antt =====
-- What becomes of the inputs that others send to the channel of New.
use mathlib.Core.List.Perm
use mostly.Common.{
  Bool-cases, ◌<◌, length, some, ◌≡◌, ◌⊎◌, refl, ap, sym, ◌∙◌, subst, inl, inr, List, [], ◌++◌,
  append_assoc, append-nil, Bool, true, false, Option, Perm,
}
use mostly.Cancellable.Context.{Err}
use mostly.Superchan.State.{Config, ctx}
use mostly.Superchan.Goroutines.{Event}
use mostly.Superchan.Reader.{Reader}
use mostly.Superchan.Reader.Failures.{Step-handle, Told, Told-append, Step-Told, handled-Told}
use mostly.Superchan.Reader.Flows.{Moves, taken, handled, Sends, Step-Flows, Step-sequential}

module _ {F T : Type 0} (panics : F → Bool) (cfg : Config) (handler : T → Option Err)
    (parallel : Bool) (zero_value : T) where
  -- A run with the inputs that it takes, those that it has handled, and those that others send.
  pub data InputRun (r : Reader F T) : List T → List T → List T → Reader F T → Type 0 where
    at_start : InputRun r [] [] [] r
    and_then :
        {s t : Reader F T} {es : List (Event F)} {ts hs vs : List T} (ws : List T)
        → InputRun r ts hs vs s
        → (step : Moves panics cfg handler parallel zero_value s es t)
        → Sends panics cfg handler parallel zero_value step ws
        → InputRun r
            (ts ++ taken panics cfg handler parallel zero_value step)
            (hs ++ handled panics cfg handler parallel zero_value step)
            (vs ++ ws)
            t

  -- What a run has taken is, in order, a beginning of what was buffered and sent.
  InputRun-buf :
      {r t : Reader F T} {ts hs vs : List T}
      → r.chan.chan.ch.closed ≡ false
      → InputRun r ts hs vs t
      → (t.chan.chan.ch.closed ≡ false) × (r.chan.chan.ch.buf ++ vs ≡ ts ++ t.chan.chan.ch.buf)
  InputRun-buf {r} usable at_start = (usable, append-nil r.chan.chan.ch.buf)
  InputRun-buf {r} {t} usable (and_then {s} {ts = ts} {vs = vs} ws before step sends) =
      let (still_usable, so_far) = InputRun-buf usable before in
      let flows = Step-Flows panics cfg handler parallel zero_value step ws still_usable sends in
      (
        flows.usable,
        sym (append_assoc r.chan.chan.ch.buf vs ws)
            ∙ ap (λ l. l ++ ws) so_far
            ∙ append_assoc ts s.chan.chan.ch.buf ws
            ∙ ap (λ l. ts ++ l) flows.in_order
            ∙ sym (
                append_assoc ts (taken panics cfg handler parallel zero_value step)
                  t.chan.chan.ch.buf),
      )

  InputRun-Perm :
      {r t : Reader F T} {ts hs vs : List T}
      → r.chan.chan.ch.closed ≡ false
      → InputRun r ts hs vs t
      → Perm (r.in_flight ++ ts) (hs ++ t.in_flight)
  InputRun-Perm {r} usable at_start =
      subst (Perm (r.in_flight ++ [])) (append-nil r.in_flight) (Perm.refl _)
  InputRun-Perm {r} {t} usable (and_then {s} {ts = ts} {hs = hs} ws before step sends) =
      let flows =
        Step-Flows panics cfg handler parallel zero_value step ws (InputRun-buf usable before).0
          sends in
      subst
        (λ l. Perm l ((hs ++ handled panics cfg handler parallel zero_value step) ++ t.in_flight))
        (append_assoc r.in_flight ts (taken panics cfg handler parallel zero_value step))
        (Perm.trans
          (Perm.append_right (taken panics cfg handler parallel zero_value step)
            (InputRun-Perm usable before))
          (subst
            (λ l.
              Perm l ((hs ++ handled panics cfg handler parallel zero_value step) ++ t.in_flight))
            (sym (append_assoc hs s.in_flight (taken panics cfg handler parallel zero_value step)))
            (subst (Perm (hs ++ (s.in_flight ++ taken panics cfg handler parallel zero_value step)))
              (sym
                (append_assoc hs (handled panics cfg handler parallel zero_value step) t.in_flight))
              (Perm.append_left hs flows.all_handled))))

  InputRun-sequential :
      {r t : Reader F T} {ts hs vs : List T}
      → parallel ≡ false
      → r.in_flight ≡ []
      → InputRun r ts hs vs t
      → (hs ≡ ts) × (t.in_flight ≡ [])
  InputRun-sequential alone idle at_start = (refl, idle)
  InputRun-sequential alone idle (and_then {ts = ts} {hs = hs} ws before step sends) =
      let (same, idle_then) = InputRun-sequential alone idle before in
      let (same_now, idle_now) =
        Step-sequential panics cfg handler parallel zero_value step alone idle_then in
      (
        ap (λ l. l ++ handled panics cfg handler parallel zero_value step) same
            ∙ ap (λ l. ts ++ l) same_now,
        idle_now,
      )

  InputRun-handle :
      {r t : Reader F T} {ts hs vs : List T}
      → InputRun r ts hs vs t
      → (t.chan.chan.handle ≡ r.chan.chan.handle) × (length t.store ≡ length r.store)
  InputRun-handle at_start = (refl, refl)
  InputRun-handle (and_then ws before step sends) =
      let (same, count) = InputRun-handle before in
      let (same_now, count_now) = Step-handle panics cfg handler parallel zero_value step in
      (same_now ∙ same, count_now ∙ count)

  InputRun-Told :
      {r t : Reader F T} {ts hs vs : List T}
      → r.chan.chan.handle.cancel_func ≡ some (ctx r.chan)
      → ctx r.chan < length r.store
      → InputRun r ts hs vs t
      → Told panics cfg handler parallel zero_value t hs
  InputRun-Told own there at_start = tt
  InputRun-Told {r} {t} own there (and_then {s} {hs = hs} ws before step sends) =
      let (same, count) = InputRun-handle before in
      Told-append panics cfg handler parallel zero_value t hs
        (handled panics cfg handler parallel zero_value step)
        (Step-Told panics cfg handler parallel zero_value hs step (InputRun-Told own there before))
        (handled-Told panics cfg handler parallel zero_value step
          (ap (λ h. h.cancel_func) same ∙ own ∙ ap (λ h. some h.context) (sym same))
          (subst (λ n. n < length s.store) (ap (λ h. h.context) (sym same))
            (subst (λ n. ctx r.chan < n) (sym count) there)))

  -- While others only send to the open channel of New's superchan, no input is lost, doubled or
  -- overtaken: what the loop has taken from the channel, followed by what is buffered then, is what
  -- was buffered and what was sent, in order. The handler has returned once for each input taken,
  -- but for those whose handler still runs; without goroutines for the handlers there is none such,
  -- and the handlers have returned in the order of the inputs. The superchan has a context of its own,
  -- and once the handler has returned an error for one of its inputs, that context is done.
  pub inputs_in_order :
      (r t : Reader F T) (ts hs vs : List T)
      → r.chan.chan.ch.closed ≡ false
      → r.in_flight ≡ []
      → r.chan.chan.handle.cancel_func ≡ some (ctx r.chan)
      → ctx r.chan < length r.store
      → InputRun r ts hs vs t
      → (r.chan.chan.ch.buf ++ vs ≡ ts ++ t.chan.chan.ch.buf)
        × Perm ts (hs ++ t.in_flight)
        × ((parallel ≡ true) ⊎ ((hs ≡ ts) × (t.in_flight ≡ [])))
        × Told panics cfg handler parallel zero_value t hs
  inputs_in_order r t ts hs vs usable idle own there run = (
    (InputRun-buf usable run).1,
    subst (λ l. Perm (l ++ ts) (hs ++ t.in_flight)) idle (InputRun-Perm usable run),
    elim (Bool-cases parallel) [
      | inl side_by_side ↦ inl side_by_side
      | inr alone ↦ inr (InputRun-sequential alone idle run)
    ],
    InputRun-Told own there run,
  )
