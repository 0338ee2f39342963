-- ===== src/Httpserver/Order.antt =====
-- The deferred functions of a server that listens, with those that its user defers, as rundeferred
-- calls them.
use mostly.Common.{◌≡◌, refl, ◌∙◌, List, arith, ℕ}
use mostly.Cancellable.Context.{Store}
use mostly.Superchan.State.{Superchan, ok, defer}
use mostly.Superchan.Rundeferred.{Rundeferred}
use mostly.Httpserver.State.{Deferred}

-- Calls of Defer, one after another, each with the contexts as they are then.
pub data Defers (s : Superchan Deferred ℕ) : Superchan Deferred ℕ → Type 0 where
  none_yet : Defers s s
  then_defer :
      {m t : Superchan Deferred ℕ} (f : List Deferred) (store : Store)
      → Defers s m
      → defer f m store ≡ ok t
      → Defers s t

pub Defers-deferfirst :
    {s t : Superchan Deferred ℕ}
    → Defers s t
    → (t.deferfirst ≡ s.deferfirst) × (t.deferlast ≡ s.deferlast) × (t.chan ≡ s.chan)
unfolding defer
Defers-deferfirst none_yet = (refl, refl, refl)
Defers-deferfirst {s} {t} (then_defer {m = m} f store before d) =
    let (first, last, same) = Defers-deferfirst before in
    let kept : (t.deferfirst ≡ m.deferfirst) × (t.deferlast ≡ m.deferlast) × (t.chan ≡ m.chan) =
      ground arith in
    (kept.0 ∙ first, kept.1 ∙ last, kept.2 ∙ same)
