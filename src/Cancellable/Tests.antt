-- ===== src/Cancellable/Tests.antt =====
-- Runs of contexts and channels, and the theorems at concrete ones.
use mostly.Common.{ℕ, ◌≡◌, refl, [], ◌∷◌, true, false, none, some, arith}
use mostly.Cancellable.Context.{canceled, custom, Store, cause, cancel, set_own}
use mostly.Cancellable.Handle
use mostly.Cancellable.Handle.{Cancellable}
use mostly.Cancellable.Chan.{Channel, updates, updates2, close_chan, try_send}
use mostly.Cancellable.Chan.Laws.{updates2-updates, updates2_closed}

-- A context 0, the contexts 1 and 2 below it, and the context 3 below 1.
abbrev family : Store
family =
    record { parent = some 1; own = none }
    ∷ record { parent = some 0; own = none }
    ∷ record { parent = some 0; own = none }
    ∷ record { parent = none; own = none }
    ∷ []

abbrev after_two : Store
after_two = cancel (cancel family 1 (some (custom 7))) 0 none

-- The first cause stays with 1 and 3, and the others have the second.
two_causes :
    (cause after_two 3 ≡ some (custom 7))
    × (cause after_two 1 ≡ some (custom 7))
    × (cause after_two 2 ≡ some canceled)
    × (cause after_two 0 ≡ some canceled)
unfolding cause cancel set_own
two_causes = (refl, refl, refl, refl)

no_cancel_func : Handle.call_cancel (Handle.new_from 3 none) none family ≡ none
unfolding Handle.call_cancel Handle.new_from
no_cancel_func = refl

abbrev two_waiting : Channel ℕ
two_waiting = record { buf = 5 ∷ 6 ∷ []; cap = 3; closed = false }

full : try_send (record two_waiting { cap = 2 }) 8 ≡ some (record two_waiting { cap = 2 })
unfolding try_send
full = refl

updates2-updates_example :
    (updates2 0 3 two_waiting ≡ some (some (5 ∷ 6 ∷ []), record two_waiting { buf = [] }))
    × (updates 0 (λ _. []) two_waiting ≡ some (5 ∷ 6 ∷ [], record two_waiting { buf = [] }))
updates2-updates_example = updates2-updates 0 two_waiting 3 refl (omega arith)

updates2_closed_example : updates2 0 1000 (record two_waiting { closed = true }) ≡ none
unfolding close_chan
updates2_closed_example =
    updates2_closed 0 two_waiting (record two_waiting { closed = true }) 1000 refl
