-- ===== src/Superchan/Goroutines.antt =====
-- superchan/superchan.go, rundeferred with UseGoroutineDefer: each deferred function runs in a
-- goroutine of its own that recovers from a panic, and `wg.Wait()` stands behind each group.
pub mod Progress
pub mod Barriers
use mostly.Common.{ℕ, suc, ◌≡◌, List, [], ◌∷◌, ◌++◌, Bool, if◌then◌else◌}

-- What can be seen of a deferred function: it begins, and it returns, or its panic is recovered and
-- logged, or (where nothing recovers) its panic goes on.
pub data Event (F : Type 0) : Type 0 where
  began returned recovered panicked : F → Event F

-- `groups` are behind a later Wait; of the present group `pending` are not handed to `caller` yet,
-- `waiting` have a goroutine that has not begun, and `running` have begun.
pub record Pool (F : Type 0) : Type 0 where
  pub groups : List (List F)
  pub pending : List F
  pub waiting : List F
  pub running : List F

-- The last Wait has returned.
pub record IsOver {F : Type 0} (p : Pool F) : Type 0 where
  pub no_group : p.groups ≡ []
  pub no_pending : p.pending ≡ []
  pub no_waiting : p.waiting ≡ []
  pub no_running : p.running ≡ []

module _ {F : Type 0} (panics : F → Bool) where
  -- `wg.Done()` runs behind the recover, so a panic is logged before the goroutine counts as done.
  abbrev pub ending : F → Event F
  ending f = if panics f then recovered f else returned f

  -- A step of the scheduler with the events that it shows.
  pub data Step (p : Pool F) : List (Event F) → Pool F → Type 0 where
    go_statement :
        (f : F) (rest : List F)
        → p.pending ≡ f ∷ rest
        → Step p [] (record p { pending = rest; waiting = f ∷ p.waiting })
    begins :
        (xs : List F) (f : F) (ys : List F)
        → p.waiting ≡ xs ++ f ∷ ys
        → Step p (began f ∷ []) (record p { waiting = xs ++ ys; running = f ∷ p.running })
    ends :
        (xs : List F) (f : F) (ys : List F)
        → p.running ≡ xs ++ f ∷ ys
        → Step p (ending f ∷ []) (record p { running = xs ++ ys })
    wait_returns :
        (group : List F) (later : List (List F))
        → p.groups ≡ group ∷ later
        → p.pending ≡ []
        → p.waiting ≡ []
        → p.running ≡ []
        → Step p [] (record { groups = later; pending = group; waiting = []; running = [] })

  -- A run to the end, with its events.
  pub data Run : Pool F → List (Event F) → Type 0 where
    over : {p : Pool F} → IsOver p → Run p []
    step :
        {p q : Pool F} {es fs all : List (Event F)}
        → Step p es q
        → Run q fs
        → all ≡ es ++ fs
        → Run p all

  -- A run that may be cut off anywhere, by its number of steps.
  pub data Steps : Pool F → ℕ → Pool F → Type 0 where
    here : {p : Pool F} → Steps p 0 p
    one_more :
        {p q r : Pool F} {es : List (Event F)} {n : ℕ}
        → Step p es q
        → Steps q n r
        → Steps p (suc n) r

-- The pool when rundeferred has come to its first group.
abbrev pub start : {F : Type 0} → List F → List (List F) → Pool F
start first later = record { groups = later; pending = first; waiting = []; running = [] }
