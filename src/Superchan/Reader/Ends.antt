-- ===== src/Superchan/Reader/Ends.antt =====
-- When the loop of New does run the deferred functions.
use mostly.Common.{
  ◌≡◌, ◌⊎◌, refl, inl, inr, List, [], ◌++◌, append-nil, arith, Bool, true, false, Option, sym,
  subst,
}
use mostly.Cancellable.Context.{Err}
use mostly.Cancellable.Chan.{receive, would_block}
use mostly.Superchan.State.{Config, is_dead, groups, clear, has_err}
use mostly.Superchan.Goroutines.{Event}
use mostly.Superchan.Goroutines.Barriers.{Stretches}
use mostly.Superchan.Rundeferred.Laws.{Rundeferred-finished}
use mostly.Superchan.Rundeferred.Ends.{IsQuiet, Rundeferred-some, Rundeferred-always}
use mostly.Superchan.Reader.{
  Reader, at_test, at_select, ended, Step, loop_ends, loop_goes_on, takes_done, done_panics,
  takes_input, hands_over_input, handler_returns, others_cancel, others_defer, others_set_deferred,
  others_use_channel, Run, here, next,
}

module _ {F T : Type 0} (panics : F → Bool) (cfg : Config) (handler : T → Option Err)
    (parallel : Bool) (zero_value : T) where
  -- rundeferred has run, and all the deferred functions with it.
  abbrev pub HasRunDeferred : Reader F T → List (Event F) → Reader F T → Type 0
  HasRunDeferred r es s = Stretches panics (groups r.chan) es × (is_dead s.chan ≡ true)

  Step-idle :
      {r s : Reader F T} {es : List (Event F)}
      → r.phase ≡ at_select
      → has_err r.chan r.store ≡ true
      → is_dead r.chan ≡ false
      → receive zero_value r.chan.chan.ch ≡ would_block
      → IsQuiet panics cfg
      → Step panics cfg handler parallel zero_value r es s
      → ((s.phase ≡ at_select) × (es ≡ [])) ⊎ ((s.phase ≡ at_test) × HasRunDeferred r es s)
  unfolding is_dead
  Step-idle at done alive idle quiet (loop_ends p d) = absurd (ground arith)
  Step-idle at done alive idle quiet (loop_goes_on p d) = absurd (ground arith)
  Step-idle {r} at done alive idle quiet (takes_done es t p d run) =
      let (st, cleared, _, dead) = Rundeferred-finished panics cfg run in inr (refl, (st, dead))
  Step-idle at done alive idle quiet (done_panics es t fin p d run bad) =
      absurd (bad (Rundeferred-always panics cfg alive quiet run))
  Step-idle at done alive idle quiet (takes_input v c store p q g h) = absurd (ground arith)
  Step-idle at done alive idle quiet (hands_over_input v c p q g) = absurd (ground arith)
  Step-idle at done alive idle quiet (handler_returns xs v ys store e h) = inl (at, refl)
  Step-idle at done alive idle quiet (others_cancel id e) = inl (at, refl)
  Step-idle at done alive idle quiet (others_defer f t d) = inl (at, refl)
  Step-idle at done alive idle quiet (others_set_deferred fs) = inl (at, refl)
  Step-idle at done alive idle quiet (others_use_channel c) = inl (at, refl)

  -- Where the goroutine of New waits in `select` on a superchan that is not dead, its context is done
  -- and nothing is in its channel, with deferred functions in goroutines or none that panics, the
  -- goroutine can go on in one way only, through rundeferred: that runs every deferred function once,
  -- in its group, and leaves the superchan dead. It can do so, and it then ends.
  pub idle_reader_runs_deferred :
      (r : Reader F T)
      → r.phase ≡ at_select
      → has_err r.chan r.store ≡ true
      → is_dead r.chan ≡ false
      → receive zero_value r.chan.chan.ch ≡ would_block
      → IsQuiet panics cfg
      → ((es : List (Event F)) × (s : Reader F T) × Run panics cfg handler parallel zero_value r es
            s
          × (s.phase ≡ ended)
          × HasRunDeferred r es s)
        × ((es : List (Event F)) (s : Reader F T)
            → Step panics cfg handler parallel zero_value r es s
            → ((s.phase ≡ at_select) × (es ≡ [])) ⊎ ((s.phase ≡ at_test) × HasRunDeferred r es s))
  unfolding is_dead clear
  idle_reader_runs_deferred r at done alive idle quiet =
      let (es, run) = Rundeferred-some panics cfg r.chan alive quiet in
      let (st, _, _, dead) = Rundeferred-finished panics cfg run in
      (
        (
          es ++ [],
          _,
          next (takes_done es (clear r.chan) at done run) tt (next (loop_ends refl done) tt here),
          refl,
          (subst (Stretches panics (groups r.chan)) (sym (append-nil es)) st, dead),
        ),
        λ fs s step. Step-idle at done alive idle quiet step,
      )
