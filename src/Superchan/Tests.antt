-- ===== src/Superchan/Tests.antt =====
-- Runs of the superchan, and the theorems at concrete ones. Deferred functions are numbers, and
-- those from 90 on panic.
use mostly.Common.{ℕ, ◌+◌, ◌≡◌, refl, ◌⊎◌, List, [], ◌∷◌, ◌++◌, Bool, true, false, none, some, leb}
use mostly.Cancellable.Context.{Store, cause, cancel, set_own}
use mostly.Superchan.State.{
  Superchan, Config, ok, panic, defer, defer_first, is_dead, clear, defer_after_cancel, groups,
}
use mostly.Superchan.Goroutines.{
  Event, began, returned, Pool, Step, go_statement, begins, Steps, here, one_more, start, IsOver,
}
use mostly.Superchan.Goroutines.Progress.{Steps-work, work}
use mostly.Superchan.Goroutines.Barriers.{both, Stretches}
use mostly.Superchan.Rundeferred.{Rundeferred, in_sequence, finished, call_groups, call_each}
use mostly.Superchan.Rundeferred.Laws.{Rundeferred-finished, Rundeferred-defer}

abbrev panics : ℕ → Bool
panics f = leb 90 f

-- A superchan on the only context of its store.
abbrev live : Superchan ℕ ℕ
live = record {
  chan = record {
    handle = record { context = 0; cancel_func = some 0 };
    ch = record { buf = 15 ∷ []; cap = 4; closed = false };
  };
  deferfuncs = some (3 ∷ []);
  deferlast = some 9;
  deferfirst = none;
}

abbrev root : Store
root = record { parent = none; own = none } ∷ []

abbrev direct : Config
direct = record { cancel_before_defer = true; use_goroutine_defer = false }

defer_run : defer (1 ∷ 2 ∷ []) live root ≡ ok (record live { deferfuncs = some (2 ∷ 1 ∷ 3 ∷ []) })
unfolding defer cause
defer_run = refl

defer_late : defer_first 1 live (cancel root 0 none) ≡ panic defer_after_cancel
unfolding defer_first cause cancel set_own
defer_late = refl

-- Two functions at once: the second begins before the first returns.
two_at_once :
    Steps panics
      (start (1 ∷ 2 ∷ []) [])
      3
      (record { groups = []; pending = []; waiting = 1 ∷ []; running = 2 ∷ [] })
two_at_once =
    one_more (go_statement 1 (2 ∷ []) refl)
      (one_more (go_statement 2 [] refl) (one_more (begins [] 2 (1 ∷ []) refl) here))

Steps-work_example :
    let q : Pool ℕ = record { groups = []; pending = []; waiting = 1 ∷ []; running = 2 ∷ [] } in
    (◌≡◌ {A = ℕ} (work panics (start (1 ∷ 2 ∷ []) [])) (3 + work panics q))
    × (IsOver q ⊎ ((es : List (Event ℕ)) × (r : Pool ℕ) × Step panics q es r))
Steps-work_example = Steps-work panics two_at_once

abbrev live_events : List (Event ℕ)
live_events = began 3 ∷ returned 3 ∷ began 9 ∷ returned 9 ∷ []

live_run : Rundeferred panics direct live live_events (clear live) finished
unfolding is_dead call_groups call_each
live_run = in_sequence refl refl refl

Rundeferred-finished_example :
    Stretches panics (groups live) live_events
    × (clear live ≡ clear live)
    × (is_dead live ≡ false)
    × (is_dead (clear live) ≡ true)
Rundeferred-finished_example = Rundeferred-finished panics direct live_run

never_panics : ℕ → Bool
never_panics f = false

Rundeferred-defer_example :
    Rundeferred never_panics direct
      (record live { deferfuncs = some (2 ∷ 1 ∷ 3 ∷ []) })
      (both never_panics [] ++ (both never_panics (2 ∷ 1 ∷ 3 ∷ []) ++ both never_panics (9 ∷ [])))
      (clear (record live { deferfuncs = some (2 ∷ 1 ∷ 3 ∷ []) }))
      finished
unfolding never_panics
Rundeferred-defer_example =
    Rundeferred-defer never_panics direct live (record live { deferfuncs = some (2 ∷ 1 ∷ 3 ∷ []) })
      root (1 ∷ 2 ∷ []) (3 ∷ []) refl (λ g. refl) refl defer_run
