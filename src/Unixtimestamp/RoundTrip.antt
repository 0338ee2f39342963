-- ===== src/Unixtimestamp/RoundTrip.antt =====
-- What JSON, the binary encoding and a database leave of a time.
use mostly.Common.{
  ℕ, ◌+◌, ◌*◌, ◌/◌, ◌^◌, ◌<◌, ◌≡◌, ◌↔◌, inl, inr, refl, ap, sym, ◌∙◌, subst, List, [], ◌∷◌,
  append-nil, true, false, none, some, length, if◌then◌else◌, Bool-cases, replicate, arith,
}
use mostly.Decimal.{ℤ, pos, negsuc, itoa, IsInt64, parsed, atoi, atoi-itoa}
use mostly.Ncode.Encoding.{put_uint64, uint64, b2n}
use mostly.Ncode.Encoding.Laws.{uint64-put_uint64, b2n_short}
use mostly.Unixtimestamp.{
  Time, zero_value, is_zero, to_time, from_time, after_zero_time, marshal_json, unmarshal_json,
  time_of, to_uint64, to_int64, marshal_binary, unmarshal_binary, an_int64, scan, value,
}
use mostly.Unixtimestamp.Units.{
  IsUnit, is_early, rounded, units_apart, to_time-rounded, time_of-from_time, not_after-rounded,
}

atoi_zero : atoi (b'0' ∷ []) ≡ parsed (pos 0)
unfolding atoi
atoi_zero = refl

unmarshal_json_parsed :
    (per : ℕ) (dat : List ℕ) (u : Time) (z : ℤ)
    → atoi dat ≡ parsed z
    → unmarshal_json per dat u ≡ (time_of per z, none)
unfolding unmarshal_json
unmarshal_json_parsed per dat u z h = rw (unmarshal_json, h) refl

unmarshal_json-marshal_json :
    (per : ℕ) (t u : Time)
    → IsUnit per
    → t.nsec < 1000000000
    → IsInt64 (from_time per t)
    → unmarshal_json per (marshal_json per t) u ≡ (rounded per t, none)
unfolding marshal_json
unmarshal_json-marshal_json per t u unit fits range = elim (Bool-cases (after_zero_time t)) [
  | inl after ↦ rw after (
      unmarshal_json_parsed per (itoa (from_time per t)) u (from_time per t)
        (atoi-itoa (from_time per t) range)
      ∙ ap (λ x. (x, none)) (time_of-from_time per t.sec t.nsec unit fits after))
  | inr before ↦ rw before (
      unmarshal_json_parsed per (b'0' ∷ []) u (pos 0) atoi_zero
      ∙ ap (λ x. (x, none)) (sym (not_after-rounded per t before)))
]

to_int64-to_uint64 : (z : ℤ) → IsInt64 z → (to_int64 (to_uint64 z) ≡ z) × (to_uint64 z < 2 ^ 64)
to_int64-to_uint64 (pos n) h = ground arith
to_int64-to_uint64 (negsuc n) h = ground arith

uint64_back : (n : ℕ) → n < 2 ^ 64 → uint64 (put_uint64 n) ≡ some n
uint64_back n h = ap uint64 (sym (append-nil (put_uint64 n))) ∙ (uint64-put_uint64 n [] h).0

abbrev kept : Time → Time
kept t = if after_zero_time t then t else zero_value

unmarshal_binary_read :
    (per : ℕ) (dat : List ℕ) (n : ℕ)
    → uint64 dat ≡ some n
    → unmarshal_binary per dat ≡ some (kept (to_time per (to_int64 n)))
unfolding unmarshal_binary
unmarshal_binary_read per dat n h = rw (unmarshal_binary, h) refl

kept_zero : (per : ℕ) → IsUnit per → kept (to_time per (pos 0)) ≡ zero_value
unfolding to_time
kept_zero per (inl e) = rw e refl
kept_zero per (inr (inl e)) = rw e refl
kept_zero per (inr (inr e)) = rw e refl

kept_negsuc : (per n : ℕ) → kept (to_time per (negsuc n)) ≡ zero_value
unfolding to_time
kept_negsuc per n = refl

-- A unit is at least a nanosecond.
late_rounded :
    (per s n : ℕ)
    → IsUnit per
    → is_early per (record { sec = pos s; nsec = n }) ≡ false
    → after_zero_time (rounded per (record { sec = pos s; nsec = n })) ≡ true
late_rounded per s n (inl e) late =
    subst
      (λ (p : ℕ).
        is_early p (record { sec = pos s; nsec = n }) ≡ false
        → after_zero_time (rounded p (record { sec = pos s; nsec = n })) ≡ true)
      (sym e) (λ l. ground arith) late
late_rounded per s n (inr (inl e)) late =
    subst
      (λ (p : ℕ).
        is_early p (record { sec = pos s; nsec = n }) ≡ false
        → after_zero_time (rounded p (record { sec = pos s; nsec = n })) ≡ true)
      (sym e) (λ l. ground arith) late
late_rounded per s n (inr (inr e)) late =
    subst
      (λ (p : ℕ).
        is_early p (record { sec = pos s; nsec = n }) ≡ false
        → after_zero_time (rounded p (record { sec = pos s; nsec = n })) ≡ true)
      (sym e) (λ l. ground arith) late

kept-from_time :
    (per : ℕ) (z : ℤ) (n : ℕ)
    → IsUnit per
    → n < 1000000000
    → let t : Time = record { sec = z; nsec = n } in
      after_zero_time t ≡ true → kept (to_time per (from_time per t)) ≡ rounded per t
unfolding from_time
kept-from_time per (negsuc s) n unit fits after = absurd (ground arith)
kept-from_time per (pos s) n unit fits after =
    let (_, _, none_yet) = units_apart per s n unit fits in
    elim (Bool-cases (is_early per (record { sec = pos s; nsec = n }))) [
      | inl early ↦
          let zero_units : s * per + n * per / 1000000000 ≡ 0 = none_yet.1 (ground arith) in
          rw early (ap (λ i. kept (to_time per (pos i))) zero_units ∙ kept_zero per unit)
      | inr late ↦
          ap kept (to_time-rounded per s n unit fits late)
          ∙ rw (late_rounded per s n unit late) refl
    ]

-- What MarshalJSON writes of a time UnmarshalJSON reads back, whatever the receiver held, as the time
-- rounded down to the unit of FuncTo and FuncFrom, or as the zero time if no whole unit lies between it
-- and the start of 1970. What MarshalBinary writes UnmarshalBinary reads back as the same. The unit is
-- the second, the millisecond or the microsecond, and the count of units is an int64.
pub rounded_back :
    (per : ℕ) (t u : Time)
    → IsUnit per
    → t.nsec < 1000000000
    → IsInt64 (from_time per t)
    → (unmarshal_json per (marshal_json per t) u ≡ (rounded per t, none))
      × (unmarshal_binary per (marshal_binary per t) ≡ some (rounded per t))
unfolding marshal_binary
rounded_back per t u unit fits range = (
  unmarshal_json-marshal_json per t u unit fits range,
  elim (Bool-cases (after_zero_time t)) [
    | inl after ↦
        let (same, small) = to_int64-to_uint64 (from_time per t) range in
        rw after (
          unmarshal_binary_read per (put_uint64 (to_uint64 (from_time per t)))
            (to_uint64 (from_time per t)) (uint64_back (to_uint64 (from_time per t)) small)
          ∙ ap (λ z. some (kept (to_time per z))) same
          ∙ ap some (kept-from_time per t.sec t.nsec unit fits after))
    | inr before ↦ rw before (
        unmarshal_binary_read per (replicate 8 0) 0 (unfold uint64 in refl)
        ∙ ap some (kept_zero per unit ∙ sym (not_after-rounded per t before)))
  ],
)

-- A count before 1970 is a time before 1970 for UnmarshalJSON and Scan, and the zero time for
-- UnmarshalBinary.
pub negative_counts :
    (per n : ℕ) (u : Time)
    → n < 2 ^ 63
    → (unmarshal_json per (itoa (negsuc n)) u ≡ (to_time per (negsuc n), none))
      × (scan per (an_int64 (negsuc n)) u ≡ (to_time per (negsuc n), none))
      × (unmarshal_binary per (put_uint64 (to_uint64 (negsuc n))) ≡ some zero_value)
unfolding scan
negative_counts per n u h =
    let (same, small) = to_int64-to_uint64 (negsuc n) h in
    (
      unmarshal_json_parsed per (itoa (negsuc n)) u (negsuc n) (atoi-itoa (negsuc n) h),
      refl,
      unmarshal_binary_read per (put_uint64 (to_uint64 (negsuc n))) (to_uint64 (negsuc n))
            (uint64_back (to_uint64 (negsuc n)) small)
          ∙ ap (λ z. some (kept (to_time per z))) same
          ∙ ap some (kept_negsuc per n),
    )

is_zero-zero_value : (t : Time) → is_zero t ≡ true → t ≡ zero_value
unfolding is_zero
is_zero-zero_value t h = ground arith

-- Scan of what Value gives is the time that was there, the zero time by way of nil, and for a nil
-- receiver it is the zero time.
pub scan-value :
    (per : ℕ) (t u : Time)
    → (scan per (value (some t)) u ≡ (t, none)) × (scan per (value none) u ≡ (zero_value, none))
unfolding scan value
scan-value per t u = elim (Bool-cases (is_zero t)) [
  | inl zero_time ↦
      (rw zero_time (ap (λ x. (x, none)) (sym (is_zero-zero_value t zero_time))), refl)
  | inr other ↦ (rw other refl, refl)
]

-- UnmarshalBinary panics on fewer than eight bytes, and on no other input.
pub unmarshal_binary_short :
    (per : ℕ) (dat : List ℕ) → (unmarshal_binary per dat ≡ none) ↔ (length dat < 8)
unfolding unmarshal_binary
unmarshal_binary_short per dat =
    let short : (uint64 dat ≡ none) ↔ (length dat < 8) = unfold b2n in b2n_short dat in
    ground (arith, short.0, short.1)
