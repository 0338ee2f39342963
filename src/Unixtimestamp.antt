-- ===== src/Unixtimestamp.antt =====
-- unixtimestamp/times.go. A time is its seconds since 1970 and its nanoseconds within the second; the
-- time zone is left out. FuncTo and FuncFrom count units: seconds by default, or milliseconds or
-- microseconds.
pub mod Units
pub mod RoundTrip
mod Tests
use mostly.Common.{
  ℕ, zero, suc, ◌+◌, ◌-◌, ◌*◌, ◌/◌, ◌%◌, ◌^◌, List, [], ◌∷◌, Bool, true, false, ◌||◌, ◌&&◌, Option,
  none, some, ltb, ◌==◌, if◌then◌else◌, replicate,
}
use mostly.Decimal.{ℤ, pos, negsuc, itoa, AtoiError, Parsed, parsed, unparsed, atoi}
use mostly.Ncode.Encoding.{put_uint64, uint64}

pub record Time : Type 0 where
  pub sec : ℤ
  pub nsec : ℕ

-- The first of January of the year 1, for which IsZero is true.
abbrev pub zero_value : Time
zero_value = record { sec = negsuc 62135596799; nsec = 0 }

abbrev same_sec : ℤ → ℤ → Bool
same_sec (pos a) (pos b) = a == b
same_sec (negsuc a) (negsuc b) = a == b
same_sec (pos a) (negsuc b) = false
same_sec (negsuc a) (pos b) = false

unfoldable pub is_zero : Time → Bool
is_zero t = same_sec t.sec zero_value.sec && t.nsec == 0

-- TSeconds, TMilli and TMicro at `per` units a second: 1, 1000 or 1000000.
unfoldable pub to_time : ℕ → ℤ → Time
to_time per (pos i) = record { sec = pos (i / per); nsec = i % per * (1000000000 / per) }
to_time per (negsuc i) = record {
  sec = negsuc (i / per);
  nsec = (per - 1 - i % per) * (1000000000 / per);
}

-- FSeconds, FMilli and FMicro: the units are rounded down.
unfoldable pub from_time : ℕ → Time → ℤ
from_time per t = elim t.sec [
  | pos s ↦ pos (s * per + t.nsec * per / 1000000000)
  | negsuc s ↦ negsuc (suc s * per - t.nsec * per / 1000000000 - 1)
]

-- `t.After(zerotime)`: zerotime is what FuncTo makes of 0, the start of 1970.
abbrev pub after_zero_time : Time → Bool
after_zero_time t = elim t.sec [ pos s ↦ ltb 0 s || ltb 0 t.nsec | negsuc s ↦ false ]

-- UnmarshalJSON and its kin return an error and what the receiver holds then.
pub data TimeError : Type 0 where
  atoi_error : AtoiError → TimeError
  unsupported_type : TimeError

-- The conversions between int64 and uint64.
abbrev pub to_uint64 : ℤ → ℕ
to_uint64 (pos n) = n % 2 ^ 64
to_uint64 (negsuc n) = 2 ^ 64 - 1 - n % 2 ^ 64

abbrev pub to_int64 : ℕ → ℤ
to_int64 n = if ltb n (2 ^ 63) then pos n else negsuc (2 ^ 64 - 1 - n)

-- Scan of nil, of a time, of an int64, or of a value of another type.
pub data Scanned : Type 0 where
  nil other_type : Scanned
  a_time : Time → Scanned
  an_int64 : ℤ → Scanned

-- Value; a nil receiver is `none`.
unfoldable pub value : Option Time → Scanned
unfolding is_zero
value none = nil
value (some u) = if is_zero u then nil else a_time u

module _ (per : ℕ) where
  unfoldable pub marshal_json : Time → List ℕ
  unfolding from_time
  marshal_json t = if after_zero_time t then itoa (from_time per t) else b'0' ∷ []

  -- The time behind the test for 0.
  abbrev pub time_of : ℤ → Time
  time_of (pos zero) = zero_value
  time_of (pos (suc i)) = to_time per (pos (suc i))
  time_of (negsuc i) = to_time per (negsuc i)

  unfoldable pub unmarshal_json : List ℕ → Time → Time × Option TimeError
  unfolding to_time
  unmarshal_json dat t = elim (atoi dat) [
    | unparsed e ↦ (t, some (atoi_error e))
    | parsed i ↦ (time_of i, none)
  ]

  unfoldable pub marshal_binary : Time → List ℕ
  unfolding from_time
  marshal_binary t =
      if after_zero_time t then put_uint64 (to_uint64 (from_time per t)) else replicate 8 0

  -- `none` is the panic of Uint64 on fewer than eight bytes.
  unfoldable pub unmarshal_binary : List ℕ → Option Time
  unfolding to_time
  unmarshal_binary dat = elim (uint64 dat) [
    | none ↦ none
    | some n ↦
        let t = to_time per (to_int64 n) in some (if after_zero_time t then t else zero_value)
  ]

  unfoldable pub scan : Scanned → Time → Time × Option TimeError
  unfolding to_time
  scan nil u = (zero_value, none)
  scan (a_time x) u = (x, none)
  scan (an_int64 x) u = (time_of x, none)
  scan other_type u = (u, some unsupported_type)

-- String, where `print` is String of a time.
unfoldable pub string_of : (Time → List ℕ) → Option Time → List ℕ
unfolding is_zero
string_of print none = b'(' ∷ b'n' ∷ b'o' ∷ b'n' ∷ b'e' ∷ b')' ∷ []
string_of print (some t) =
    if is_zero t then b'(' ∷ b'n' ∷ b'o' ∷ b'n' ∷ b'e' ∷ b')' ∷ [] else print t
