-- ===== src/Ncode/Twist.antt =====
-- ncode/twist.go. A parameter `zero_value` is the zero value with which `make` fills a slice.
pub mod Laws
mod Tests
use mostly.Common.{ℕ, suc, List, [], ◌∷◌, Option, none, some, length, set, replicate}

-- What a callback can fail with. `err_skip` is ErrSkip, compared by identity: an error that wraps
-- it is another one.
pub data CallbackError : Type 0 where
  err_skip : CallbackError
  failure : ℕ → CallbackError

module _ {ℓ κ} {T : Type ℓ} {K : Type κ} where
  -- `for i := range a { k[i] = fn(a[i]) }`, from the index i on.
  pub twist_loop : (T → K) → List T → ℕ → List K → List K
  twist_loop fn [] i k = k
  twist_loop fn (x ∷ a) i k = twist_loop fn a (suc i) (set k i (fn x))

  pub twist_any : K → List T → (T → K) → List K
  twist_any zero_value a fn = twist_loop fn a 0 (replicate (length a) zero_value)

module _ {ℓ} {T : Type ℓ} where
  -- TwistFormat: into strings, which are lists of bytes.
  pub twist_format : List T → (T → List ℕ) → List (List ℕ)
  unfolding twist_any
  twist_format a fn = twist_any [] a fn

module _ {ℓ κ} {T : Type ℓ} {K : Type κ} where
  pub twist_error_loop :
      (K → T × Option CallbackError) → List K → ℕ → List T → List T × Option CallbackError
  twist_error_loop fn [] i k = (k, none)
  twist_error_loop fn (x ∷ a) i k =
      let (v, err) = fn x in
      elim err [
        | some err_skip ↦ twist_error_loop fn a (suc i) k
        | some (failure n) ↦ (k, some (failure n))
        | none ↦ twist_error_loop fn a (suc i) (set k i v)
      ]

  pub twist_any_with_error :
      T → List K → (K → T × Option CallbackError) → List T × Option CallbackError
  twist_any_with_error zero_value a fn = twist_error_loop fn a 0 (replicate (length a) zero_value)

module _ {ℓ} {T : Type ℓ} where
  pub twist_parse :
      T → List (List ℕ) → (List ℕ → T × Option CallbackError) → List T × Option CallbackError
  unfolding twist_any_with_error
  twist_parse zero_value a fn = twist_any_with_error zero_value a fn

-- A named type whose underlying type is string; a conversion keeps the bytes.
pub data Named : Type 0 where
  named : List ℕ → Named

abbrev pub bytes : Named → List ℕ
bytes (named s) = s

pub twist : List (List ℕ) → List Named
unfolding twist_any
twist a = twist_any (named []) a named

pub twist_back : List Named → List (List ℕ)
unfolding twist_any
twist_back a = twist_any [] a bytes
