-- ===== src/Superchan/Reader/Failures.antt =====
-- That New's loop and its handlers keep a done context done, and report what a handler returns.
use mostly.Common.{
  ◌<◌, ◌≡◌, refl, inl, inr, ap, ◌∙◌, List, [], ◌∷◌, ◌++◌, arith, Bool, true, Option, some, length,
  Option-cases,
}
use mostly.Cancellable.Context.{Err, Store, is_done, cause}
use mostly.Cancellable.Context.Laws.{length-cancel}
use mostly.Cancellable.Handle.{call_cancel}
use mostly.Superchan.State.{Superchan, Config, ctx, has_err, set_deferred}
use mostly.Superchan.Goroutines.{Event}
use mostly.Superchan.Reader.{
  Reader, loop_ends, loop_goes_on, takes_done, done_panics, takes_input, hands_over_input,
  handler_returns, others_cancel, others_defer, others_set_deferred, others_use_channel,
  handle_input,
}
use mostly.Superchan.Reader.Flows.{Moves, handled, Rundeferred-chan, defer-chan}
use mostly.Superchan.Reader.Laws.{
  has_err-handle_input, has_err-handle_error, has_err-cancel, has_err-set_deferred,
}

length-handle_input :
    {F T : Type 0} (handler : T → Option Err) (v : T) (s : Superchan F T) (store after : Store)
    → handle_input handler v s store ≡ some after
    → length after ≡ length store
unfolding handle_input call_cancel
length-handle_input handler v s store after h = elim (Option-cases (handler v)) [
  | inl q ↦ ground arith
  | inr (e, q) ↦ elim (Option-cases s.chan.handle.cancel_func) [
    | inl p ↦ ground arith
    | inr (id, p) ↦ ground (arith, length-cancel store id (some e))
  ]
]

module _ {F T : Type 0} (panics : F → Bool) (cfg : Config) (handler : T → Option Err)
    (parallel : Bool) (zero_value : T) where
  -- A step keeps the context of the superchan and its cancel function.
  pub Step-handle :
      {r s : Reader F T} {es : List (Event F)}
      → Moves panics cfg handler parallel zero_value r es s
      → (s.chan.chan.handle ≡ r.chan.chan.handle) × (length s.store ≡ length r.store)
  unfolding set_deferred
  Step-handle (loop_ends p d) = (refl, refl)
  Step-handle (loop_goes_on p d) = (refl, refl)
  Step-handle (takes_done es t p d run) =
      (ap (λ c. c.handle) (Rundeferred-chan panics cfg run), refl)
  Step-handle (done_panics es t fin p d run bad) =
      (ap (λ c. c.handle) (Rundeferred-chan panics cfg run), refl)
  Step-handle {r} (takes_input v c store p q g h) =
      (refl, length-handle_input handler v r.chan r.store store h)
  Step-handle (hands_over_input v c p q g) = (refl, refl)
  Step-handle {r} (handler_returns xs v ys store e h) =
      (refl, length-handle_input handler v r.chan r.store store h)
  Step-handle {r} (others_cancel id e) = (refl, length-cancel r.store id e)
  Step-handle {r} (others_defer f t d) =
      (ap (λ c. c.handle) (defer-chan f r.chan t r.store d), refl)
  Step-handle (others_set_deferred fs) = (refl, refl)
  Step-handle (others_use_channel c) = (refl, refl)

  same_context :
      (s t : Superchan F T) (store : Store)
      → t.chan.handle ≡ s.chan.handle
      → has_err s store ≡ true
      → has_err t store ≡ true
  same_context s t store same done = ap (λ h. is_done (cause store h.context)) same ∙ done

  pub Step-has_err :
      {r s : Reader F T} {es : List (Event F)}
      → Moves panics cfg handler parallel zero_value r es s
      → has_err r.chan r.store ≡ true
      → has_err s.chan s.store ≡ true
  Step-has_err (loop_ends p d) done = done
  Step-has_err (loop_goes_on p d) done = done
  Step-has_err {r} (takes_done es t p d run) done =
      same_context r.chan t r.store (ap (λ c. c.handle) (Rundeferred-chan panics cfg run)) done
  Step-has_err {r} (done_panics es t fin p d run bad) done =
      same_context r.chan t r.store (ap (λ c. c.handle) (Rundeferred-chan panics cfg run)) done
  Step-has_err {r} (takes_input v c store p q g h) done =
      has_err-handle_input handler v r.chan r.store store h done
  Step-has_err (hands_over_input v c p q g) done = done
  Step-has_err {r} (handler_returns xs v ys store e h) done =
      has_err-handle_input handler v r.chan r.store store h done
  Step-has_err {r} (others_cancel id e) done = has_err-cancel r.chan r.store id e done
  Step-has_err {r} (others_defer f t d) done =
      same_context r.chan t r.store (ap (λ c. c.handle) (defer-chan f r.chan t r.store d)) done
  Step-has_err {r} (others_set_deferred fs) done = has_err-set_deferred fs r.chan r.store ∙ done
  Step-has_err (others_use_channel c) done = done

  -- If the handler returns an error for one of the values, the context of the superchan is done.
  abbrev pub Told : Reader F T → List T → Type 0
  Told s [] = Unit
  Told s (v ∷ vs) = ((e : Err) → handler v ≡ some e → has_err s.chan s.store ≡ true) × Told s vs

  pub Told-append : (s : Reader F T) (vs ws : List T) → Told s vs → Told s ws → Told s (vs ++ ws)
  Told-append s [] ws h k = k
  Told-append s (v ∷ vs) ws (first, h) k = (first, Told-append s vs ws h k)

  pub Step-Told :
      {r s : Reader F T} {es : List (Event F)} (vs : List T)
      → Moves panics cfg handler parallel zero_value r es s
      → Told r vs
      → Told s vs
  Step-Told [] step h = tt
  Step-Told (v ∷ vs) step (first, h) =
      ((λ e bad. Step-has_err step (first e bad)), Step-Told vs step h)

  pub handled-Told :
      {r s : Reader F T} {es : List (Event F)}
      (step : Moves panics cfg handler parallel zero_value r es s)
      → r.chan.chan.handle.cancel_func ≡ some (ctx r.chan)
      → ctx r.chan < length r.store
      → Told s (handled panics cfg handler parallel zero_value step)
  handled-Told (loop_ends p d) own there = tt
  handled-Told (loop_goes_on p d) own there = tt
  handled-Told (takes_done es t p d run) own there = tt
  handled-Told (done_panics es t fin p d run bad) own there = tt
  handled-Told {r} (takes_input v c store p q g h) own there =
      ((λ e bad. has_err-handle_error handler v e r.chan r.store store own there bad h), tt)
  handled-Told (hands_over_input v c p q g) own there = tt
  handled-Told {r} (handler_returns xs v ys store f h) own there =
      ((λ e bad. has_err-handle_error handler v e r.chan r.store store own there bad h), tt)
  handled-Told (others_cancel id e) own there = tt
  handled-Told (others_defer f t d) own there = tt
  handled-Told (others_set_deferred fs) own there = tt
  handled-Told (others_use_channel c) own there = tt
