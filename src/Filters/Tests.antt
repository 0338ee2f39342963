-- ===== src/Filters/Tests.antt =====
-- Runs of the filters, and the theorems at concrete slices.
use mostly.Common.{ℕ, ◌≡◌, refl, List, [], ◌∷◌, some, ltb}
use mostly.Filters.{Slice, filter_in_place, filter_copy, in_place_loop, copy_loop}
use mostly.Filters.Laws.{filter_in_place_lem}

abbrev readings : List ℕ
readings = 9 ∷ 1 ∷ 8 ∷ 2 ∷ []

abbrev window : Slice
window = record { base = 1; len = 4 }

-- The array `7 9 1 8 2 7`, and what is left of it.
in_place_run :
    filter_in_place (λ n. ltb n 5) (7 ∷ 9 ∷ 1 ∷ 8 ∷ 2 ∷ 7 ∷ []) window
    ≡ some (7 ∷ 1 ∷ 2 ∷ 8 ∷ 2 ∷ 7 ∷ [], record { base = 1; len = 2 })
unfolding filter_in_place in_place_loop
in_place_run = refl

copy_run : filter_copy (λ n. ltb n 5) (some readings) ≡ some (1 ∷ 2 ∷ [])
unfolding filter_copy copy_loop
copy_run = refl

filter_in_place_example :
    filter_in_place (λ n. ltb n 5) (7 ∷ 9 ∷ 1 ∷ 8 ∷ 2 ∷ 7 ∷ []) window
    ≡ some (7 ∷ 1 ∷ 2 ∷ 8 ∷ 2 ∷ 7 ∷ [], record { base = 1; len = 2 })
filter_in_place_example = filter_in_place_lem (λ n. ltb n 5) (7 ∷ []) readings (7 ∷ [])
