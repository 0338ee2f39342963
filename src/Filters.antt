-- ===== src/Filters.antt =====
-- filters/filters.go: FilterInPlace and FilterCopy.
-- A slice is a window of a backing array, and the array is the memory that slices share.
pub mod Loops
pub mod Laws
mod Tests
use mostly.Common.{
  ℕ, zero, suc, ◌+◌, Bool, not, ◌&&◌, List, [], ◌∷◌, ◌++◌, Option, none, some, length, get_elem?,
  set, take, drop, ◌==◌, if◌then◌else◌,
}

-- The header of a slice: where it starts in its backing array, and its length.
pub record Slice : Type 0 where
  pub base : ℕ
  pub len : ℕ

module _ {ℓ} {A : Type ℓ} where
  -- What a slice shows of the memory.
  abbrev pub view : List A → Slice → List A
  view mem s = take s.len (drop s.base mem)

  -- The rounds of FilterInPlace that are left; `none` is an index out of range, which panics.
  pub in_place_loop : (A → Bool) → ℕ → ℕ → ℕ → ℕ → List A → Option (List A × ℕ)
  in_place_loop keepfn base zero i good mem = some (mem, good)
  in_place_loop keepfn base (suc rounds) i good mem = elim (get_elem? mem (base + i)) [
    | none ↦ none
    | some x ↦
        in_place_loop keepfn base rounds (suc i) (if keepfn x then suc good else good)
          (if keepfn x && not (i == good) then set mem (base + good) x else mem)
  ]

  abbrev reslice : Slice → Option (List A × ℕ) → Option (List A × Slice)
  reslice s none = none
  reslice s (some (mem, good)) = some (mem, record s { len = good })

  -- The memory afterwards and the slice that is returned.
  pub filter_in_place : (A → Bool) → List A → Slice → Option (List A × Slice)
  filter_in_place keepfn mem s =
      if s.len == 0 then some (mem, s) else reslice s (in_place_loop keepfn s.base s.len 0 0 mem)

  -- A slice value that is not tied to memory; `none` is the nil slice.
  abbrev pub elems : Option (List A) → List A
  elems none = []
  elems (some xs) = xs

  abbrev push : Option (List A) → A → Option (List A)
  push out x = some (elems out ++ x ∷ [])

  pub copy_loop : (A → Bool) → List A → Option (List A) → Option (List A)
  copy_loop keepfn [] out = out
  copy_loop keepfn (x ∷ xs) out = copy_loop keepfn xs (if keepfn x then push out x else out)

  -- The original is returned when it has no element, be it nil or not.
  pub filter_copy : (A → Bool) → Option (List A) → Option (List A)
  filter_copy keepfn a = if length (elems a) == 0 then a else copy_loop keepfn (elems a) none
