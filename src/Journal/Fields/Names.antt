-- ===== src/Journal/Fields/Names.antt =====
-- Which names validVarName accepts.
use mostly.Common.{
  ℕ, ◌≤◌, ◌≡◌, ◌≢◌, ◌↔◌, ◌⊎◌, refl, List, [], ◌∷◌, true, none, some, arith, ℕ_discrete,
}
use mostly.Journal.Fields.{name_empty, name_underscore, is_name_byte, check_bytes, valid_var_name}

abbrev pub IsNameByte : ℕ → Type 0
IsNameByte c = ((b'A' ≤ c) × (c ≤ b'Z')) ⊎ (((b'0' ≤ c) × (c ≤ b'9')) ⊎ (c ≡ b'_'))

abbrev pub All {ℓ} : {A : Type 0} → (A → Type ℓ) → List A → Type ℓ
All P [] = Unit
All P (x ∷ xs) = P x × All P xs

is_name_byte_iff : (c : ℕ) → (is_name_byte c ≡ true) ↔ IsNameByte c
is_name_byte_iff c = ground arith

check_bytes_iff : (name : List ℕ) → (check_bytes name ≡ none) ↔ All IsNameByte name
unfolding check_bytes
check_bytes_iff [] = ground arith
check_bytes_iff (c ∷ name) = ground (arith, check_bytes_iff name, is_name_byte_iff c)

abbrev pub StartsWithUnderscore : List ℕ → Type 0
StartsWithUnderscore [] = ⊥
StartsWithUnderscore (c ∷ name) = c ≡ b'_'

check_bytes-ne :
    (name : List ℕ)
    → (check_bytes name ≢ some name_empty) × (check_bytes name ≢ some name_underscore)
unfolding check_bytes
check_bytes-ne [] = ground arith
check_bytes-ne (c ∷ name) = ground (arith, check_bytes-ne name)

-- A name is accepted exactly if it has a byte, its first is no underscore, and each is an uppercase
-- letter, a digit or an underscore. The empty name and a leading underscore have errors of their own.
pub valid_var_name_iff :
    (name : List ℕ)
    → ((valid_var_name name ≡ none)
        ↔ ((name ≢ []) × ¬ StartsWithUnderscore name × All IsNameByte name))
      × ((valid_var_name name ≡ some name_empty) ↔ (name ≡ []))
      × ((valid_var_name name ≡ some name_underscore) ↔ StartsWithUnderscore name)
unfolding valid_var_name
valid_var_name_iff [] =
    (((λ e. cc), λ h. absurd (h.0 refl)), ((λ e. refl), λ e. refl), ((λ e. cc), λ h. absurd h))
valid_var_name_iff (c ∷ name) = elim (ℕ_discrete c b'_') [
  | yes u ↦ ground (arith, check_bytes_iff (c ∷ name))
  | no n ↦ ground (arith, check_bytes_iff (c ∷ name), check_bytes-ne (c ∷ name))
]
