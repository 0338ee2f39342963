-- ===== src/Unixtimestamp/Tests.antt =====
-- Times around 1970 in each encoding, and the theorems at concrete times.
use mostly.Common.{◌<◌, ◌≡◌, ◌↔◌, refl, inl, inr, [], ◌∷◌, none, some, arith}
use mostly.Decimal.{pos, negsuc, itoa}
use mostly.Ncode.Encoding.{put_uint64}
use mostly.Unixtimestamp.{
  Time, zero_value, to_time, from_time, marshal_json, unmarshal_json, marshal_binary,
  unmarshal_binary, to_uint64, an_int64, scan, value,
}
use mostly.Unixtimestamp.RoundTrip.{
  rounded_back, negative_counts, scan-value, unmarshal_binary_short,
}

-- Half a second behind 1700000000.
abbrev late : Time
late = record { sec = pos 1700000000; nsec = 500000000 }

seconds_only : from_time 1 late ≡ pos 1700000000
unfolding from_time
seconds_only = refl

milliseconds : from_time 1000 late ≡ pos 1700000000500
unfolding from_time
milliseconds = refl

-- A tenth of a second before 1970 is the millisecond -100.
before : to_time 1000 (negsuc 99) ≡ record { sec = negsuc 0; nsec = 900000000 }
unfolding to_time
before = refl

before_back : from_time 1000 (record { sec = negsuc 0; nsec = 900000000 }) ≡ negsuc 99
unfolding from_time
before_back = refl

rounded_back_example :
    (unmarshal_json 1000 (marshal_json 1000 late) zero_value ≡ (late, none))
    × (unmarshal_binary 1000 (marshal_binary 1000 late) ≡ some late)
unfolding from_time
rounded_back_example =
    rounded_back 1000 late zero_value (inr (inl refl)) (omega arith) (omega arith)

negative_counts_example :
    (unmarshal_json 1 (itoa (negsuc 4)) late ≡ (to_time 1 (negsuc 4), none))
    × (scan 1 (an_int64 (negsuc 4)) late ≡ (to_time 1 (negsuc 4), none))
    × (unmarshal_binary 1 (put_uint64 (to_uint64 (negsuc 4))) ≡ some zero_value)
negative_counts_example = negative_counts 1 4 late (omega arith)

scan-value_example :
    (scan 1 (value (some late)) zero_value ≡ (late, none))
    × (scan 1 (value none) zero_value ≡ (zero_value, none))
scan-value_example = scan-value 1 late zero_value

unmarshal_binary_short_example : (unmarshal_binary 1 (1 ∷ 2 ∷ []) ≡ none) ↔ (2 < 8)
unmarshal_binary_short_example = unmarshal_binary_short 1 (1 ∷ 2 ∷ [])
