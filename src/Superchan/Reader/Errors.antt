-- ===== src/Superchan/Reader/Errors.antt =====
-- What an error of New's handler leaves undone.
use mostly.Common.{
  ◌<◌, ◌≡◌, refl, List, [], ◌∷◌, ◌++◌, arith, Bool, true, false, Option, some, length,
}
use mostly.Cancellable.Context.{Err}
use mostly.Superchan.State.{Config, is_dead, ctx, has_err}
use mostly.Superchan.Goroutines.{Event}
use mostly.Superchan.Reader.{
  Reader, Step, loop_ends, loop_goes_on, takes_done, done_panics, takes_input, hands_over_input,
  handler_returns, others_cancel, others_defer, others_set_deferred, others_use_channel, Run,
}
use mostly.Superchan.Reader.Flows.{handled}
use mostly.Superchan.Reader.Laws.{Skipped, Skipped-Run, has_err-handle_error}

module _ {F T : Type 0} (panics : F → Bool) (cfg : Config) (handler : T → Option Err)
    (zero_value : T) where
  failed-Skipped :
      {r m : Reader F T} {es : List (Event F)} (v : T) (e : Err)
      → r.chan.chan.handle.cancel_func ≡ some (ctx r.chan)
      → ctx r.chan < length r.store
      → is_dead r.chan ≡ false
      → r.in_flight ≡ []
      → handler v ≡ some e
      → (step : Step panics cfg handler false zero_value r es m)
      → handled panics cfg handler false zero_value step ≡ v ∷ []
      → Skipped m × (es ≡ [])
  unfolding is_dead
  failed-Skipped v e own there alive idle bad (loop_ends p d) is = absurd (ground arith)
  failed-Skipped v e own there alive idle bad (loop_goes_on p d) is = absurd (ground arith)
  failed-Skipped v e own there alive idle bad (takes_done es t p d run) is = absurd (ground arith)
  failed-Skipped v e own there alive idle bad (done_panics es t fin p d run q) is =
      absurd (ground arith)
  failed-Skipped {r} v e own there alive idle bad (takes_input w c store p q g h) is = (
    record {
      leaving = λ at. cc;
      done = has_err-handle_error handler w e r.chan r.store store own there (ground arith) h;
      alive = alive;
    },
    refl,
  )
  failed-Skipped v e own there alive idle bad (hands_over_input w c p q g) is =
      absurd (ground arith)
  failed-Skipped v e own there alive idle bad (handler_returns [] w ys store f h) is =
      absurd (ground arith)
  failed-Skipped v e own there alive idle bad (handler_returns (x ∷ xs) w ys store f h) is =
      absurd (ground arith)
  failed-Skipped v e own there alive idle bad (others_cancel id f) is = absurd (ground arith)
  failed-Skipped v e own there alive idle bad (others_defer f t d) is = absurd (ground arith)
  failed-Skipped v e own there alive idle bad (others_set_deferred fs) is = absurd (ground arith)
  failed-Skipped v e own there alive idle bad (others_use_channel c) is = absurd (ground arith)

  -- Where New handles its inputs one after another, a step in which the handler has returned an error
  -- for an input calls no deferred function, and neither does any step behind it, whatever the
  -- goroutine and others go on to do, but for a call of SetDeferred(nil): the handler's error has the
  -- context cancelled, and the loop ends at its test without running them. The superchan does not
  -- become dead.
  pub handler_error_skips_deferred :
      (r m t : Reader F T) (es fs : List (Event F)) (v : T) (e : Err)
      → r.chan.chan.handle.cancel_func ≡ some (ctx r.chan)
      → ctx r.chan < length r.store
      → is_dead r.chan ≡ false
      → r.in_flight ≡ []
      → handler v ≡ some e
      → (step : Step panics cfg handler false zero_value r es m)
      → handled panics cfg handler false zero_value step ≡ v ∷ []
      → Run panics cfg handler false zero_value m fs t
      → (es ++ fs ≡ []) × (is_dead t.chan ≡ false) × (has_err t.chan t.store ≡ true)
  handler_error_skips_deferred r m t es fs v e own there alive idle bad step is run =
      let (start, none_now) = failed-Skipped v e own there alive idle bad step is in
      let (k, none_later) = Skipped-Run panics cfg handler false zero_value run start in
      (rw (none_now, none_later) refl, k.alive, k.done)
