-- ===== src/Journal/Fields/Reading.antt =====
-- The fields that a reader of the journal's native protocol finds in what appendVariable writes. The
-- reader is that protocol's own description: up to the first `=` or newline stands the name, then
-- either the value up to a newline or its length in eight bytes, the value and a newline.
use mostly.Common.{
  ℕ, zero, suc, ◌^◌, ◌<◌, ◌≡◌, ◌≢◌, refl, List, [], ◌∷◌, ◌++◌, Bool, true, false, ◌||◌, Option,
  none, some, arith, ◌==◌, if◌then◌else◌, length, take, drop, take-append_length,
  drop-append_length, append_assoc, Bool-cases, inl, inr,
}
use mostly.Ncode.Encoding.{put_uint64, uint64}
use mostly.Ncode.Encoding.Laws.{uint64-put_uint64}
use mostly.Journal.Fields.{newline, has_newline, append_variable}

-- The bytes before the first one that passes the test, that byte, and the rest.
unfoldable pub until : (ℕ → Bool) → List ℕ → Option (List ℕ × ℕ × List ℕ)
until stop [] = none
until stop (c ∷ text) =
    let more : Option (List ℕ × ℕ × List ℕ) = elim (until stop text) [
      | none ↦ none
      | some (before, mark, after) ↦ some (c ∷ before, mark, after)
    ] in
    if stop c then some ([], c, text) else more

abbrev pub Field : Type 0
Field = List ℕ × List ℕ

-- The value after `name=`, and the text behind it.
pub line_value : List ℕ → List ℕ → Option (Field × List ℕ)
unfolding until
line_value name text = elim (until (λ c. c == newline) text) [
  | none ↦ none
  | some (value, mark, after) ↦ some ((name, value), after)
]

expect_newline : Field → List ℕ → Option (Field × List ℕ)
expect_newline field [] = none
expect_newline field (c ∷ text) = if c == newline then some (field, text) else none

-- The value after a name and a newline.
sized_value : List ℕ → List ℕ → Option (Field × List ℕ)
unfolding expect_newline
sized_value name text = elim (uint64 text) [
  | none ↦ none
  | some n ↦ let body = drop 8 text in expect_newline (name, take n body) (drop n body)
]

unfoldable pub read_field : List ℕ → Option (Field × List ℕ)
unfolding line_value sized_value
read_field text = elim (until (λ c. (c == b'=') || (c == newline)) text) [
  | none ↦ none
  | some (name, mark, after) ↦
      if mark == b'=' then line_value name after else sized_value name after
]

-- All fields, in at most as many rounds as the fuel says; `none` if the text is malformed or the
-- fuel ran out.
unfoldable pub read_fields : ℕ → List ℕ → Option (List Field)
unfolding read_field
read_fields zero text = none
read_fields (suc rounds) [] = some []
read_fields (suc rounds) (c ∷ text) = elim (read_field (c ∷ text)) [
  | none ↦ none
  | some (field, after) ↦ elim (read_fields rounds after) [
    | none ↦ none
    | some fields ↦ some (field ∷ fields)
  ]
]

abbrev AllFail : (ℕ → Bool) → List ℕ → Type 0
AllFail stop [] = Unit {0}
AllFail stop (c ∷ text) = (stop c ≡ false) × AllFail stop text

abbrev pub NoMark : List ℕ → Type 0
NoMark [] = Unit {0}
NoMark (c ∷ name) = (c ≢ b'=') × (c ≢ newline) × NoMark name

until-append :
    (stop : ℕ → Bool) (before : List ℕ) (mark : ℕ) (after : List ℕ)
    → AllFail stop before
    → stop mark ≡ true
    → until stop (before ++ mark ∷ after) ≡ some (before, mark, after)
unfolding until
until-append stop [] mark after h m = rw m
until-append stop (c ∷ before) mark after h m = ground (arith, until-append stop before mark after)

NoMark-AllFail : (name : List ℕ) → NoMark name → AllFail (λ c. (c == b'=') || (c == newline)) name
NoMark-AllFail [] h = tt
NoMark-AllFail (c ∷ name) h = (ground arith, NoMark-AllFail name h.2)

no_newline-AllFail :
    (value : List ℕ) → has_newline value ≡ false → AllFail (λ c. c == newline) value
no_newline-AllFail [] h = tt
no_newline-AllFail (c ∷ value) h = (ground arith, no_newline-AllFail value (ground arith))

module _ (name : List ℕ) (hn : NoMark name) where
  pub read_field_line : (text : List ℕ) → read_field (name ++ b'=' ∷ text) ≡ line_value name text
  unfolding read_field
  read_field_line text = rw (
    until-append (λ c. (c == b'=') || (c == newline)) name b'=' text (NoMark-AllFail name hn) refl,
    read_field,
  )

  read_field_sized : (text : List ℕ) → read_field (name ++ newline ∷ text) ≡ sized_value name text
  unfolding read_field
  read_field_sized text = rw (
    until-append (λ c. (c == b'=') || (c == newline)) name newline text (NoMark-AllFail name hn)
        refl,
    read_field,
  )

  pub line_value_lem :
      (value rest : List ℕ)
      → has_newline value ≡ false
      → line_value name (value ++ newline ∷ rest) ≡ some ((name, value), rest)
  unfolding line_value
  line_value_lem value rest h = rw (
    until-append (λ c. c == newline) value newline rest (no_newline-AllFail value h) refl,
    line_value,
  )

  sized_value_lem :
      (value rest : List ℕ)
      → length value < 2 ^ 64
      → sized_value name (put_uint64 (length value) ++ (value ++ newline ∷ rest))
        ≡ some ((name, value), rest)
  unfolding sized_value expect_newline
  sized_value_lem value rest h =
      let (number, body) = uint64-put_uint64 (length value) (value ++ newline ∷ rest) h in
      rw (number, sized_value)
        (rw body (
          rw
            (take-append_length value (newline ∷ rest), drop-append_length value (newline ∷ rest))))

  -- One field is read back, and what stands behind it is left.
  pub read_field-append_variable :
      (value rest : List ℕ)
      → length value < 2 ^ 64
      → read_field (append_variable [] name value ++ rest) ≡ some ((name, value), rest)
  unfolding append_variable
  read_field-append_variable value rest hv = elim (Bool-cases (has_newline value)) [
    | inl multi ↦
        let size = put_uint64 (length value) in
        ground (
          arith,
          read_field_sized (size ++ (value ++ newline ∷ rest)),
          sized_value_lem value rest,
          append_assoc name (newline ∷ (size ++ (value ++ newline ∷ []))) rest,
          append_assoc size (value ++ newline ∷ []) rest,
          append_assoc value (newline ∷ []) rest,
        )
    | inr single ↦ ground (
      arith,
      read_field_line (value ++ newline ∷ rest),
      line_value_lem value rest,
      append_assoc name (b'=' ∷ (value ++ newline ∷ [])) rest,
      append_assoc value (newline ∷ []) rest,
    )
  ]
