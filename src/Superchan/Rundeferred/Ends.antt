-- ===== src/Superchan/Rundeferred/Ends.antt =====
-- That rundeferred comes to its end.
use mostly.Common.{
  ℕ, zero, suc, ◌≤◌, ◌≡◌, ◌⊎◌, refl, inl, inr, List, [], ◌∷◌, ◌++◌, arith, Bool, true, false,
  Bool-cases,
}
use mostly.Superchan.State.{Superchan, Config, groups, optional, funcs, is_dead, clear}
use mostly.Superchan.Goroutines.{Event, Pool, Run, over, step, start}
use mostly.Superchan.Goroutines.Progress.{work, Step-work, progress}
use mostly.Superchan.Rundeferred.{
  Rundeferred, Finish, finished, twice, in_goroutines, in_sequence, cut_short, call_groups,
}
use mostly.Superchan.Rundeferred.Laws.{call_groups_quiet}

module _ {F : Type 0} (panics : F → Bool) where
  -- The scheduler can be run to its end.
  Run_some : (k : ℕ) (p : Pool F) → work panics p ≤ k → (es : List (Event F)) × Run panics p es
  Run_some zero p small = elim (progress panics p) [
    | inl done ↦ ([], over done)
    | inr (es, q, st) ↦ absurd (omega (arith, Step-work panics st))
  ]
  Run_some (suc k) p small = elim (progress panics p) [
    | inl done ↦ ([], over done)
    | inr (es, q, st) ↦
        let (fs, rest) = Run_some k q (omega (arith, Step-work panics st)) in
        (es ++ fs, step st rest refl)
  ]

  -- Nothing goes through rundeferred: panics are recovered, or there are none.
  abbrev pub IsQuiet : Config → Type 0
  IsQuiet cfg = (cfg.use_goroutine_defer ≡ true) ⊎ ((f : F) → panics f ≡ false)

  no_panic :
      (cfg : Config) → IsQuiet cfg → cfg.use_goroutine_defer ≡ false → (f : F) → panics f ≡ false
  no_panic cfg (inl parallel) direct f = absurd (ground arith)
  no_panic cfg (inr quiet) direct f = quiet f

  groups_quiet :
      {T : Type 0} (cfg : Config) (s : Superchan F T)
      → IsQuiet cfg
      → cfg.use_goroutine_defer ≡ false
      → (es : List (Event F)) × (call_groups panics (groups s) ≡ (es, true))
  groups_quiet cfg s quiet direct = (
    _,
    call_groups_quiet panics (no_panic cfg quiet direct) (optional s.deferfirst)
        (funcs s.deferfuncs) (optional s.deferlast),
  )

  -- On a superchan that is not dead rundeferred can come to its return.
  pub Rundeferred-some :
      {T : Type 0} (cfg : Config) (s : Superchan F T)
      → is_dead s ≡ false
      → IsQuiet cfg
      → (es : List (Event F)) × Rundeferred panics cfg s es (clear s) finished
  Rundeferred-some cfg s alive quiet = elim (Bool-cases cfg.use_goroutine_defer) [
    | inl parallel ↦
        let p : Pool F =
          start (optional s.deferfirst) (funcs s.deferfuncs ∷ optional s.deferlast ∷ []) in
        let (es, run) = Run_some (work panics p) p (omega arith) in
        (es, in_goroutines alive parallel run)
    | inr direct ↦
        let (es, ran) = groups_quiet cfg s quiet direct in (es, in_sequence alive direct ran)
  ]

  -- And it can end in no other way.
  pub Rundeferred-always :
      {T : Type 0} (cfg : Config) {s t : Superchan F T} {es : List (Event F)} {fin : Finish}
      → is_dead s ≡ false
      → IsQuiet cfg
      → Rundeferred panics cfg s es t fin
      → fin ≡ finished
  Rundeferred-always cfg alive quiet (twice d) = absurd (ground arith)
  Rundeferred-always cfg alive quiet (in_goroutines a h r) = refl
  Rundeferred-always cfg alive quiet (in_sequence a h e) = refl
  Rundeferred-always cfg {s} alive quiet (cut_short a h e) =
      let (fs, ran) = groups_quiet cfg s quiet h in absurd (ground arith)
