-- ===== src/Superchan/Reader/Flows.antt =====
-- What one step of New's loop, of its handlers or of others does with inputs.
use mathlib.Core.List.Perm
use mathlib.Core.List.{perm_append_comm, perm_middle}
use mostly.Common.{
  ◌≡◌, refl, ap, sym, ◌∙◌, subst, inl, inr, List, [], ◌∷◌, ◌++◌, append-nil, arith, Bool, false,
  Option, List-cases, Perm,
}
use mostly.Cancellable.Context.{Err, Store}
use mostly.Cancellable.Chan.{Channel, receive, got}
use mostly.Cancellable.Chan.Laws.{closed-receive}
use mostly.Superchan.State.{Superchan, Config, ok, clear, defer, set_deferred}
use mostly.Superchan.Goroutines.{Event}
use mostly.Superchan.Rundeferred.{Rundeferred, Finish, twice, in_goroutines, in_sequence, cut_short}
use mostly.Superchan.Reader.{
  Reader, Step, loop_ends, loop_goes_on, takes_done, done_panics, takes_input, hands_over_input,
  handler_returns, others_cancel, others_defer, others_set_deferred, others_use_channel,
}

pub Rundeferred-chan :
    {F T : Type 0} (panics : F → Bool) (cfg : Config) {s t : Superchan F T} {es : List (Event F)}
    {fin : Finish}
    → Rundeferred panics cfg s es t fin
    → t.chan ≡ s.chan
unfolding clear
Rundeferred-chan panics cfg (twice d) = refl
Rundeferred-chan panics cfg (in_goroutines a h r) = refl
Rundeferred-chan panics cfg (in_sequence a h e) = refl
Rundeferred-chan panics cfg (cut_short a h e) = refl

pub defer-chan :
    {F T : Type 0} (f : List F) (s t : Superchan F T) (store : Store)
    → defer f s store ≡ ok t
    → t.chan ≡ s.chan
unfolding defer
defer-chan f s t store h = ground arith

pub set_deferred-ch :
    {F T : Type 0} (fs : Option (List F)) (s : Superchan F T)
    → (set_deferred fs s).chan.ch ≡ s.chan.ch
unfolding set_deferred
set_deferred-ch fs s = refl

-- A receive from an open channel takes the oldest value.
receive_oldest :
    {T : Type 0} (zero_value : T) (c d : Channel T) (v : T)
    → c.closed ≡ false
    → receive zero_value c ≡ got v d
    → c.buf ≡ v ∷ d.buf
unfolding receive
receive_oldest zero_value c d v usable h = elim (List-cases c.buf) [
  | inl e ↦ absurd (ground arith)
  | inr (u, rest, e) ↦ ground arith
]

module _ {F T : Type 0} (panics : F → Bool) (cfg : Config) (handler : T → Option Err)
    (parallel : Bool) (zero_value : T) where
  abbrev pub Moves : Reader F T → List (Event F) → Reader F T → Type 0
  Moves r es s = Step panics cfg handler parallel zero_value r es s

  -- The input that a step receives from the channel.
  abbrev pub taken : {r s : Reader F T} {es : List (Event F)} → Moves r es s → List T
  taken (takes_input v c store p q g h) = v ∷ []
  taken (hands_over_input v c p q g) = v ∷ []
  taken (loop_ends p d) = []
  taken (loop_goes_on p d) = []
  taken (takes_done es t p d run) = []
  taken (done_panics es t fin p d run bad) = []
  taken (handler_returns xs v ys store e h) = []
  taken (others_cancel id e) = []
  taken (others_defer f t d) = []
  taken (others_set_deferred fs) = []
  taken (others_use_channel c) = []

  -- The input whose handler has returned in a step.
  abbrev pub handled : {r s : Reader F T} {es : List (Event F)} → Moves r es s → List T
  handled (takes_input v c store p q g h) = v ∷ []
  handled (handler_returns xs v ys store e h) = v ∷ []
  handled (hands_over_input v c p q g) = []
  handled (loop_ends p d) = []
  handled (loop_goes_on p d) = []
  handled (takes_done es t p d run) = []
  handled (done_panics es t fin p d run bad) = []
  handled (others_cancel id e) = []
  handled (others_defer f t d) = []
  handled (others_set_deferred fs) = []
  handled (others_use_channel c) = []

  -- What others send in a step: all that they do with the channel is to send.
  abbrev pub Sends : {r s : Reader F T} {es : List (Event F)} → Moves r es s → List T → Type 0
  Sends {r} (others_use_channel c) vs = c ≡ record r.chan.chan.ch { buf = r.chan.chan.ch.buf ++ vs }
  Sends (takes_input v c store p q g h) vs = vs ≡ []
  Sends (handler_returns xs v ys store e h) vs = vs ≡ []
  Sends (hands_over_input v c p q g) vs = vs ≡ []
  Sends (loop_ends p d) vs = vs ≡ []
  Sends (loop_goes_on p d) vs = vs ≡ []
  Sends (takes_done es t p d run) vs = vs ≡ []
  Sends (done_panics es t fin p d run bad) vs = vs ≡ []
  Sends (others_cancel id e) vs = vs ≡ []
  Sends (others_defer f t d) vs = vs ≡ []
  Sends (others_set_deferred fs) vs = vs ≡ []

  -- One step: the channel stays open and first in, first out, and each input taken is handled or waits
  -- for its handler.
  pub record Flows {r s : Reader F T} {es : List (Event F)} (step : Moves r es s) (ws : List T)
      : Type 0 where
    pub usable : s.chan.chan.ch.closed ≡ false
    pub in_order : r.chan.chan.ch.buf ++ ws ≡ taken step ++ s.chan.chan.ch.buf
    pub all_handled : Perm (r.in_flight ++ taken step) (handled step ++ s.in_flight)

  -- A step that takes and handles nothing, and keeps the channel.
  still :
      {r s : Reader F T} {es : List (Event F)} (step : Moves r es s) (ws : List T)
      → r.chan.chan.ch.closed ≡ false
      → s.chan.chan.ch ≡ r.chan.chan.ch
      → s.in_flight ≡ r.in_flight
      → (taken step ≡ []) × (handled step ≡ [])
      → ws ≡ []
      → Flows step ws
  still {r} {s} step ws usable same flights (no_input, no_handler) nothing = record {
    usable = ap (λ c. c.closed) same ∙ usable;
    in_order =
        ap (λ l. r.chan.chan.ch.buf ++ l) nothing
        ∙ append-nil r.chan.chan.ch.buf
        ∙ ap (λ c. c.buf) (sym same)
        ∙ ap (λ l. l ++ s.chan.chan.ch.buf) (sym no_input);
    all_handled =
        subst (Perm (r.in_flight ++ taken step))
          (ap (λ l. r.in_flight ++ l) no_input
            ∙ append-nil r.in_flight
            ∙ sym flights
            ∙ ap (λ l. l ++ s.in_flight) (sym no_handler))
          (Perm.refl _);
  }

  pub Step-Flows :
      {r s : Reader F T} {es : List (Event F)} (step : Moves r es s) (ws : List T)
      → r.chan.chan.ch.closed ≡ false
      → Sends step ws
      → Flows step ws
  Step-Flows (loop_ends p d) ws usable nothing =
      still (loop_ends p d) ws usable refl refl (refl, refl) nothing
  Step-Flows (loop_goes_on p d) ws usable nothing =
      still (loop_goes_on p d) ws usable refl refl (refl, refl) nothing
  Step-Flows (takes_done es t p d run) ws usable nothing =
      still (takes_done es t p d run) ws usable (ap (λ c. c.ch) (Rundeferred-chan panics cfg run))
        refl (refl, refl) nothing
  Step-Flows (done_panics es t fin p d run bad) ws usable nothing =
      still (done_panics es t fin p d run bad) ws usable
        (ap (λ c. c.ch) (Rundeferred-chan panics cfg run)) refl (refl, refl) nothing
  Step-Flows (others_cancel id e) ws usable nothing =
      still (others_cancel id e) ws usable refl refl (refl, refl) nothing
  Step-Flows {r} (others_defer f t d) ws usable nothing =
      still (others_defer f t d) ws usable (ap (λ c. c.ch) (defer-chan f r.chan t r.store d)) refl
        (refl, refl) nothing
  Step-Flows {r} (others_set_deferred fs) ws usable nothing =
      still (others_set_deferred fs) ws usable (set_deferred-ch fs r.chan) refl (refl, refl) nothing
  Step-Flows {r} (others_use_channel c) ws usable is = record {
    usable = ap (λ d. d.closed) is ∙ usable;
    in_order = ap (λ d. d.buf) (sym is);
    all_handled =
        subst (Perm (r.in_flight ++ [])) (append-nil r.in_flight) (Perm.refl (r.in_flight ++ []));
  }
  Step-Flows {r} (takes_input v c store p q g h) ws usable nothing = record {
    usable = closed-receive zero_value r.chan.chan.ch g ∙ usable;
    in_order =
        ap (λ l. r.chan.chan.ch.buf ++ l) nothing
        ∙ append-nil r.chan.chan.ch.buf
        ∙ receive_oldest zero_value r.chan.chan.ch c v usable g;
    all_handled = perm_append_comm r.in_flight (v ∷ []);
  }
  Step-Flows {r} (hands_over_input v c p q g) ws usable nothing = record {
    usable = closed-receive zero_value r.chan.chan.ch g ∙ usable;
    in_order =
        ap (λ l. r.chan.chan.ch.buf ++ l) nothing
        ∙ append-nil r.chan.chan.ch.buf
        ∙ receive_oldest zero_value r.chan.chan.ch c v usable g;
    all_handled = perm_append_comm r.in_flight (v ∷ []);
  }
  Step-Flows {r} (handler_returns xs v ys store e h) ws usable nothing = record {
    usable = usable;
    in_order = ap (λ l. r.chan.chan.ch.buf ++ l) nothing ∙ append-nil r.chan.chan.ch.buf;
    all_handled =
        subst (λ l. Perm l (v ∷ (xs ++ ys))) (sym e ∙ sym (append-nil r.in_flight))
          (perm_middle xs ys);
  }

  -- Without goroutines for its handlers, New has handled what it has taken.
  pub Step-sequential :
      {r s : Reader F T} {es : List (Event F)} (step : Moves r es s)
      → parallel ≡ false
      → r.in_flight ≡ []
      → (handled step ≡ taken step) × (s.in_flight ≡ [])
  Step-sequential (loop_ends p d) alone idle = (refl, idle)
  Step-sequential (loop_goes_on p d) alone idle = (refl, idle)
  Step-sequential (takes_done es t p d run) alone idle = (refl, idle)
  Step-sequential (done_panics es t fin p d run bad) alone idle = (refl, idle)
  Step-sequential (takes_input v c store p q g h) alone idle = (refl, idle)
  Step-sequential (hands_over_input v c p q g) alone idle = absurd (ground arith)
  Step-sequential (handler_returns [] v ys store e h) alone idle = absurd (ground arith)
  Step-sequential (handler_returns (x ∷ xs) v ys store e h) alone idle = absurd (ground arith)
  Step-sequential (others_cancel id e) alone idle = (refl, idle)
  Step-sequential (others_defer f t d) alone idle = (refl, idle)
  Step-sequential (others_set_deferred fs) alone idle = (refl, idle)
  Step-sequential (others_use_channel c) alone idle = (refl, idle)
