-- ===== src/Unixtimestamp/Units.antt =====
-- Times counted in units: what of a time the unit keeps.
use mostly.Common.{
  ℕ, zero, suc, ◌+◌, ◌*◌, ◌/◌, ◌%◌, ◌<◌, ◌≡◌, ◌≢◌, ◌⊎◌, ◌↔◌, inl, inr, refl, ap, ◌∙◌, Bool, true,
  false, ◌&&◌, ◌==◌, if◌then◌else◌, Bool-cases, arith,
}
use native.Mathlib.Nat.{zero-mul}
use mostly.Decimal.{ℤ, pos, negsuc}
use mostly.Unixtimestamp.{Time, zero_value, to_time, from_time, after_zero_time, time_of}

-- The units that the package knows: seconds, milliseconds, microseconds.
abbrev pub IsUnit : ℕ → Type 0
IsUnit per = (per ≡ 1) ⊎ (per ≡ 1000) ⊎ (per ≡ 1000000)

-- Whether no whole unit has passed since the start of 1970.
abbrev pub is_early : ℕ → Time → Bool
is_early per t = elim t.sec [ pos s ↦ s == 0 && t.nsec * per / 1000000000 == 0 | negsuc s ↦ true ]

-- A time rounded down to a unit, and the zero time for what is not a unit behind the start of 1970.
abbrev pub rounded : ℕ → Time → Time
rounded per t =
    if is_early per t
    then zero_value
    else record t { nsec = t.nsec * per / 1000000000 * (1000000000 / per) }

-- Whole seconds and the units of a fraction are told apart again.
pub units_apart :
    (per s n : ℕ)
    → IsUnit per
    → n < 1000000000
    → ((s * per + n * per / 1000000000) / per ≡ s)
      × ((s * per + n * per / 1000000000) % per ≡ n * per / 1000000000)
      × ((s * per + n * per / 1000000000 ≡ 0) ↔ ((s ≡ 0) × (n * per / 1000000000 ≡ 0)))
units_apart per s n (inl e) fits =
    rw e (omega arith, omega arith, (λ h. omega arith, λ h. omega arith))
units_apart per s n (inr (inl e)) fits =
    rw e (omega arith, omega arith, (λ h. omega arith, λ h. omega arith))
units_apart per s n (inr (inr e)) fits =
    rw e (omega arith, omega arith, (λ h. omega arith, λ h. omega arith))

time_of_pos : (per i : ℕ) → i ≢ 0 → time_of per (pos i) ≡ to_time per (pos i)
time_of_pos per zero ne = absurd (ne refl)
time_of_pos per (suc i) ne = refl

pub to_time-rounded :
    (per s n : ℕ)
    → IsUnit per
    → n < 1000000000
    → is_early per (record { sec = pos s; nsec = n }) ≡ false
    → to_time per (pos (s * per + n * per / 1000000000))
      ≡ rounded per (record { sec = pos s; nsec = n })
unfolding to_time
to_time-rounded per s n unit fits late =
    let (whole, part, _) = units_apart per s n unit fits in rw (late, whole, part) refl

no_part : (n per : ℕ) → n ≡ 0 → n * per / 1000000000 ≡ 0
no_part n per e = rw e (omega (arith, zero-mul per))

pub time_of-from_time :
    (per : ℕ) (z : ℤ) (n : ℕ)
    → IsUnit per
    → n < 1000000000
    → let t : Time = record { sec = z; nsec = n } in
      after_zero_time t ≡ true → time_of per (from_time per t) ≡ rounded per t
unfolding from_time
time_of-from_time per (negsuc s) n unit fits after = absurd (ground arith)
time_of-from_time per (pos s) n unit fits after =
    let (_, _, none_yet) = units_apart per s n unit fits in
    elim (Bool-cases (is_early per (record { sec = pos s; nsec = n }))) [
      | inl early ↦
          let zero_units : s * per + n * per / 1000000000 ≡ 0 = none_yet.1 (ground arith) in
          rw early (ap (λ i. time_of per (pos i)) zero_units)
      | inr late ↦
          time_of_pos per (s * per + n * per / 1000000000)
            (λ h. let both = none_yet.0 h in absurd (ground arith))
          ∙ to_time-rounded per s n unit fits late
    ]

-- What is not behind the start of 1970 is early.
pub not_after-rounded :
    (per : ℕ) (t : Time) → after_zero_time t ≡ false → rounded per t ≡ zero_value
not_after-rounded per t before = ground (arith, no_part t.nsec per)
