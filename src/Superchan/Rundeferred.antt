-- ===== src/Superchan/Rundeferred.antt =====
-- superchan/superchan.go: rundeferred, in goroutines or by direct calls.
pub mod Laws
pub mod Ends
use mostly.Common.{
  ℕ, ◌≡◌, List, [], ◌∷◌, ◌++◌, Bool, true, false, Option, none, some, if◌then◌else◌,
}
use mostly.Superchan.State.{Superchan, Config, groups, optional, funcs, is_dead, clear}
use mostly.Superchan.Goroutines.{Event, began, returned, panicked, Run, start}

-- How rundeferred ends: it returns, it panics because it was called before, or the panic of a
-- deferred function goes through it.
pub data Finish : Type 0 where
  finished called_twice func_panicked : Finish

module _ {F : Type 0} (panics : F → Bool) where
  -- Direct calls in order, up to the first panic; `true` if there was none.
  unfoldable pub call_each : List F → List (Event F) × Bool
  call_each [] = ([], true)
  call_each (f ∷ fs) =
      let (es, fine) = call_each fs in
      if panics f then (began f ∷ panicked f ∷ [], false) else (began f ∷ returned f ∷ es, fine)

  -- The groups one after another; there is nothing to wait for.
  unfoldable pub call_groups : List (List F) → List (Event F) × Bool
  unfolding call_each
  call_groups [] = ([], true)
  call_groups (g ∷ gs) =
      let (es, fine) = call_each g in
      let (fs, all_fine) = call_groups gs in if fine then (es ++ fs, all_fine) else (es, false)

  -- rundeferred: the events that it shows, the superchan that it leaves, and how it ends.
  pub data Rundeferred {T : Type 0} (cfg : Config) (s : Superchan F T)
      : List (Event F) → Superchan F T → Finish → Type 0 where
    twice : is_dead s ≡ true → Rundeferred cfg s [] s called_twice
    in_goroutines :
        {es : List (Event F)}
        → is_dead s ≡ false
        → cfg.use_goroutine_defer ≡ true
        → Run panics
            (start (optional s.deferfirst) (funcs s.deferfuncs ∷ optional s.deferlast ∷ []))
            es
        → Rundeferred cfg s es (clear s) finished
    in_sequence :
        {es : List (Event F)}
        → is_dead s ≡ false
        → cfg.use_goroutine_defer ≡ false
        → call_groups (groups s) ≡ (es, true)
        → Rundeferred cfg s es (clear s) finished
    cut_short :
        {es : List (Event F)}
        → is_dead s ≡ false
        → cfg.use_goroutine_defer ≡ false
        → call_groups (groups s) ≡ (es, false)
        → Rundeferred cfg s es s func_panicked
