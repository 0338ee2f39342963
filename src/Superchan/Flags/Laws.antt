-- ===== src/Superchan/Flags/Laws.antt =====
-- The two flags on a command line decide how the signal handler ends a superchan.
use mostly.Common.{
  ℕ, ◌≡◌, ◌⊎◌, refl, ap, sym, ◌∙◌, subst, inl, inr, List, [], ◌∷◌, ◌++◌, map, arith, Bool, true,
  false, not, Option, none, some, if◌then◌else◌, Option-cases, append_assoc,
}
use mostly.Cancellable.Context.{Err, cause}
use mostly.Cancellable.Chan.Laws.{closed-receive}
use mostly.Cancellable.Chan.{Channel, receive, got}
use mostly.Superchan.State.{optional, funcs}
use mostly.Flags.{Strconv, new_bool_value, set_flag}
use mostly.Superchan.State.{Config, groups, ctx}
use mostly.Superchan.Goroutines.{Event}
use mostly.Superchan.Goroutines.Barriers.{both, Stretches}
use mostly.Superchan.Rundeferred.{finished}
use mostly.Superchan.Rundeferred.Laws.{Rundeferred-finished, Rundeferred-InOrder}
use mostly.Superchan.Main.{
  MainEvent, deferred, cancelled, World, put_back, closing, MainSignalHandler, context_done,
  cancel_then_deferred, deferred_then_cancel, deferred_panics,
}
use mostly.Superchan.Main.Laws.{cleared_facts}
use mostly.Superchan.Flags.{FlagName, first_flag, ordered_flag, SetCall, flags, set_one, set_all}

abbrev same_flag : FlagName → FlagName → Bool
same_flag first_flag first_flag = true
same_flag ordered_flag ordered_flag = true
same_flag f g = false

-- The variable behind the value of an inverted flag, if the flag is given.
abbrev pub chosen : Option Bool → Bool → Bool
chosen none b = b
chosen (some v) b = not v

module _ {E : Type 0} (strconv : Strconv E) where
  open strconv use {parse_bool, format_bool}

  -- The value that a flag is given last.
  unfoldable pub given : FlagName → List SetCall → Option Bool
  given f [] = none
  given f ((g, text) ∷ rest) =
      let later = given f rest in
      elim later [
        | some v ↦ some v
        | none ↦ if same_flag f g then some (parse_bool text).0 else none
      ]

  abbrev pub configured : List SetCall → Config → Config
  configured args cfg = record {
    cancel_before_defer = chosen (given first_flag args) cfg.cancel_before_defer;
    use_goroutine_defer = chosen (given ordered_flag args) cfg.use_goroutine_defer;
  }

  given_same :
      (f : FlagName) (text : List ℕ) (rest : List SetCall) (b : Bool)
      → chosen (given f rest) (not (parse_bool text).0) ≡ chosen (given f ((f, text) ∷ rest)) b
  unfolding given
  given_same first_flag text rest b = elim (Option-cases (given first_flag rest)) [
    | inl e ↦ rw (given, e) refl
    | inr (v, e) ↦ rw (given, e) refl
  ]
  given_same ordered_flag text rest b = elim (Option-cases (given ordered_flag rest)) [
    | inl e ↦ rw (given, e) refl
    | inr (v, e) ↦ rw (given, e) refl
  ]

  given_different :
      (f g : FlagName) (text : List ℕ) (rest : List SetCall)
      → same_flag f g ≡ false
      → given f rest ≡ given f ((g, text) ∷ rest)
  unfolding given
  given_different f g text rest different = elim (Option-cases (given f rest)) [
    | inl e ↦ rw (given, e, different) refl
    | inr (v, e) ↦ rw (given, e) refl
  ]

  configured_same :
      {a b : Config}
      → a.cancel_before_defer ≡ b.cancel_before_defer
      → a.use_goroutine_defer ≡ b.use_goroutine_defer
      → a ≡ b
  configured_same before direct = ground arith

  set_one-configured :
      (a : SetCall) (rest : List SetCall) (cfg : Config)
      → configured rest (set_one strconv a cfg).0 ≡ configured (a ∷ rest) cfg
  unfolding set_one set_flag
  set_one-configured (first_flag, text) rest cfg =
      configured_same (given_same first_flag text rest cfg.cancel_before_defer) (
        ap (λ l. chosen l cfg.use_goroutine_defer)
          (given_different ordered_flag first_flag text rest refl))
  set_one-configured (ordered_flag, text) rest cfg =
      configured_same
        (ap (λ l. chosen l cfg.cancel_before_defer)
          (given_different first_flag ordered_flag text rest refl))
        (given_same ordered_flag text rest cfg.use_goroutine_defer)

  set_all_lem :
      (args : List SetCall) (cfg r : Config)
      → set_all strconv args cfg ≡ (r, none)
      → r ≡ configured args cfg
  unfolding set_all given
  set_all_lem [] cfg r is = ap (λ p. p.0) (sym is)
  set_all_lem (a ∷ rest) cfg r is = elim (Option-cases (set_one strconv a cfg).1) [
    | inl fine ↦
        set_all_lem rest (set_one strconv a cfg).0 r (ground arith) ∙ set_one-configured a rest cfg
    | inr (e, bad) ↦ absurd (ground arith)
  ]

-- The handler's Cancel and its deferred functions, the Cancel first where `before` is true.
abbrev pub arranged : {F : Type 0} → Bool → Err → List (Event F) → List (MainEvent F)
arranged before e fs =
    if before then cancelled e ∷ map deferred fs else map deferred fs ++ cancelled e ∷ []

module _ {F : Type 0} (panics : F → Bool) (make_signal_error : ℕ → Err) (zero_value : ℕ) where
  -- What a handler that a signal ends has done, with the two variables as they are; the signal is the
  -- one that it receives.
  abbrev Ended : Bool → Bool → World F → List (MainEvent F) → Type 0
  Ended before in_parallel w es =
      (sig : ℕ) × (left : Channel ℕ) × (receive zero_value w.chan.chan.ch ≡ got sig left)
      × ((fs : List (Event F)) × Stretches panics (groups w.chan) fs
          × (es ≡ arranged before (make_signal_error sig) fs ++ closing w.chan)
          × ((in_parallel ≡ true)
              ⊎ (fs
                  ≡ both panics (optional w.chan.deferfirst)
                    ++ (both panics (funcs w.chan.deferfuncs)
                        ++ both panics (optional w.chan.deferlast)))))

  handler-Ended :
      (cfg : Config) {w v : World F} {es : List (MainEvent F)}
      → cause w.store (ctx w.chan) ≡ none
      → MainSignalHandler panics cfg make_signal_error zero_value w es v finished
      → Ended cfg.cancel_before_defer cfg.use_goroutine_defer w es
  handler-Ended cfg live (context_done fs t others done run) = absurd (ground arith)
  handler-Ended cfg {w} live (cancel_then_deferred sig fs t store {c = ch} others b r call run) =
      let (st, cleared, _, _) = Rundeferred-finished panics cfg run in
      let (same, _) =
        cleared_facts w.chan t (put_back w.chan ch) cleared (closed-receive zero_value _ r) in
      rw b (
        sig,
        ch,
        r,
        (
          fs,
          st,
          ap (λ l. cancelled (make_signal_error sig) ∷ (map deferred fs ++ l)) same,
          Rundeferred-InOrder panics cfg run,
        ),
      )
  handler-Ended cfg {w} live (deferred_then_cancel sig fs t store {c = ch} others b r run call) =
      let (st, cleared, _, _) = Rundeferred-finished panics cfg run in
      let (same, _) =
        cleared_facts w.chan t (put_back w.chan ch) cleared (closed-receive zero_value _ r) in
      rw b (
        sig,
        ch,
        r,
        (
          fs,
          st,
          ap (λ l. map deferred fs ++ cancelled (make_signal_error sig) ∷ l) same
              ∙ sym (
                  append_assoc (map deferred fs) (cancelled (make_signal_error sig) ∷ [])
                    (closing w.chan)),
          Rundeferred-InOrder panics cfg run,
        ),
      )
  handler-Ended cfg live (deferred_panics sig fs t others b r run bad) = absurd (bad refl)

  -- Calls of Set on the two flags that Flags registers, all without an error, leave each variable as it
  -- was, if its flag is not given, and the inverse of the value given last, if it is. The signal
  -- handler that returns with them, on a context that is live when it finds a signal, has received the
  -- signal from the channel and calls Cancel with that signal's error before the deferred functions
  -- or behind them all, as the first variable says. Each has run once, in its group; where the second
  -- variable is false, they run one after another, each to its end: DeferFirst's, the deferred ones
  -- in the order in which they stand, and DeferLast's.
  pub flags_lem :
      {E : Type 0} (strconv : Strconv E) (args : List SetCall) (cfg r : Config) {w v : World F}
      {es : List (MainEvent F)}
      → set_all strconv args (flags strconv cfg) ≡ (r, none)
      → cause w.store (ctx w.chan) ≡ none
      → MainSignalHandler panics r make_signal_error zero_value w es v finished
      → (r.cancel_before_defer ≡ chosen (given strconv first_flag args) cfg.cancel_before_defer)
        × (r.use_goroutine_defer ≡ chosen (given strconv ordered_flag args) cfg.use_goroutine_defer)
        × Ended
            (chosen (given strconv first_flag args) cfg.cancel_before_defer)
            (chosen (given strconv ordered_flag args) cfg.use_goroutine_defer)
            w
            es
  unfolding flags new_bool_value
  flags_lem strconv args cfg r {w} {v} {es} parsed live handler =
      let is : r ≡ configured strconv args cfg = set_all_lem strconv args cfg r parsed in
      (
        ap (λ (c : Config). c.cancel_before_defer) is,
        ap (λ (c : Config). c.use_goroutine_defer) is,
        subst (λ (c : Config). Ended c.cancel_before_defer c.use_goroutine_defer w es) is
            (handler-Ended r live handler),
      )
