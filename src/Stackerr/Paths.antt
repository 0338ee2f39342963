-- ===== src/Stackerr/Paths.antt =====
-- stackerr/stacktracers.go: Cleanmodulepath and GetFuncCallerInfo, over package runtime as a parameter.
use mostly.Common.{
  ℕ, ◌+◌, ◌≡◌, ◌≢◌, ◌↔◌, ◌⊎◌, inl, inr, refl, ap, sym, ◌∙◌, List, [], ◌∷◌, ◌++◌, append_assoc, Bool,
  true, false, not, ◌&&◌, Option, none, some, ◌==◌, if◌then◌else◌, Bool-cases, Option-cases, arith,
}
use mostly.Decimal.{pos, itoa}

-- What is behind a prefix; `none` if the text does not begin with it.
unfoldable pub behind_prefix : List ℕ → List ℕ → Option (List ℕ)
behind_prefix s [] = some s
behind_prefix [] (p ∷ pre) = none
behind_prefix (c ∷ s) (p ∷ pre) = let rest = behind_prefix s pre in if c == p then rest else none

-- strings.TrimPrefix.
unfoldable pub trim_prefix : List ℕ → List ℕ → List ℕ
trim_prefix s pre = elim (behind_prefix s pre) [ none ↦ s | some rest ↦ rest ]

abbrev pub starts_with_slash : List ℕ → Bool
starts_with_slash [] = false
starts_with_slash (c ∷ s) = c == b'/'

unfoldable pub ends_with_slash : List ℕ → Bool
ends_with_slash [] = false
ends_with_slash (c ∷ []) = c == b'/'
ends_with_slash (c ∷ d ∷ s) = ends_with_slash (d ∷ s)

abbrev pub slash : List ℕ
slash = b'/' ∷ []

-- `mainpwd != "/"`.
abbrev pub is_slash : List ℕ → Bool
is_slash [] = false
is_slash (c ∷ []) = c == b'/'
is_slash (c ∷ d ∷ s) = false

-- Cleanmodulepath behind the trimming of the module's path.
unfoldable pub trim_pwd : List ℕ → List ℕ → List ℕ
trim_pwd mainpwd p =
    if is_slash mainpwd
    then p
    else (let q = trim_prefix p mainpwd in
        if ends_with_slash mainpwd && not (starts_with_slash q) then b'/' ∷ q else q)

abbrev pub or_given : List ℕ → List ℕ → List ℕ
or_given given [] = given
or_given given (c ∷ s) = c ∷ s

-- `cmdprefix` is mainmodulecmdprefix.
unfoldable pub clean_module_path : List ℕ → List ℕ → List ℕ → List ℕ
unfolding trim_pwd trim_prefix
clean_module_path cmdprefix mainpwd p =
    or_given p (trim_prefix (trim_pwd mainpwd (trim_prefix p cmdprefix)) slash)

-- The function init: mainmodulecmdprefix and mainpwd, which stay empty where the build info or the working
-- directory cannot be read. The parameters are the path of the main module and the directory.
unfoldable pub init_paths : Option (List ℕ) → Option (List ℕ) → List ℕ × List ℕ
init_paths none dir = ([], [])
init_paths (some main_path) none = ([], [])
init_paths (some main_path) (some dir) = (main_path, dir)

pub record FuncCallerInfo : Type 0 where
  pub funcname : List ℕ
  pub filetag : List ℕ

-- String of a place.
unfoldable pub place_text : FuncCallerInfo → List ℕ
place_text fci = fci.funcname ++ b' ' ∷ b'(' ∷ (fci.filetag ++ b')' ∷ [])

-- What runtime.Caller and FuncForPC say of a frame: the file, the line, and the function, if known.
pub record Frame : Type 0 where
  pub file : List ℕ
  pub line : ℕ
  pub func_name : Option (List ℕ)

abbrev pub tag_of : List ℕ → ℕ → List ℕ
tag_of file line = file ++ (b':' ∷ itoa (pos line))

-- The part of GetFuncCallerInfo behind `skip`.
unfoldable pub info_of :
    (ℕ → Option Frame) → (List ℕ → List ℕ) → List ℕ → List ℕ → ℕ → FuncCallerInfo
unfolding clean_module_path
info_of caller base cmdprefix mainpwd skip = elim (caller skip) [
  | none ↦ record { funcname = base []; filetag = tag_of [] 0 }
  | some frame ↦ elim frame.func_name [
    | none ↦ record { funcname = base []; filetag = tag_of frame.file frame.line }
    | some name ↦ record {
      funcname = base name;
      filetag = tag_of (clean_module_path cmdprefix mainpwd frame.file) frame.line;
    }
  ]
]

-- GetFuncCallerInfo, where `caller` is runtime.Caller with `none` for a false `ok`, `base` is
-- filepath.Base, and a nil function has the empty name. `none` is the panic.
unfoldable pub get_func_caller_info :
    (ℕ → Option Frame) → (List ℕ → List ℕ) → List ℕ → List ℕ → List ℕ → Option FuncCallerInfo
unfolding info_of
get_func_caller_info caller base cmdprefix mainpwd (a ∷ b ∷ skips) = none
get_func_caller_info caller base cmdprefix mainpwd [] =
    some (info_of caller base cmdprefix mainpwd 2)
get_func_caller_info caller base cmdprefix mainpwd (skip ∷ []) =
    some (info_of caller base cmdprefix mainpwd (2 + skip))

behind_prefix-append : (s pre rest : List ℕ) → behind_prefix s pre ≡ some rest → s ≡ pre ++ rest
unfolding behind_prefix
behind_prefix-append s [] rest h = ground arith
behind_prefix-append [] (p ∷ pre) rest h = absurd (ground arith)
behind_prefix-append (c ∷ s) (p ∷ pre) rest h = ground (arith, behind_prefix-append s pre rest)

trim_prefix-suffix : (s pre : List ℕ) → (front : List ℕ) × (s ≡ front ++ trim_prefix s pre)
unfolding trim_prefix
trim_prefix-suffix s pre = elim (Option-cases (behind_prefix s pre)) [
  | inl e ↦ ([], rw (trim_prefix, e) refl)
  | inr (rest, e) ↦ (pre, rw (trim_prefix, e) (behind_prefix-append s pre rest e))
]

-- A slash put in front goes again.
trim_slash : (q : List ℕ) → trim_prefix (b'/' ∷ q) slash ≡ q
unfolding trim_prefix behind_prefix
trim_slash q = refl

suffix_of_suffix :
    (p front q : List ℕ) → p ≡ front ++ q → (more : List ℕ) × (p ≡ more ++ trim_prefix q slash)
suffix_of_suffix p front q h =
    let (more, is) = trim_prefix-suffix q slash in
    (
      front ++ more,
      h ∙ ap (λ l. front ++ l) is ∙ sym (append_assoc front more (trim_prefix q slash)),
    )

trim_pwd-suffix :
    (mainpwd p : List ℕ) → (front : List ℕ) × (p ≡ front ++ trim_prefix (trim_pwd mainpwd p) slash)
unfolding trim_pwd trim_prefix
trim_pwd-suffix mainpwd p =
    let (front, is) = trim_prefix-suffix p mainpwd in
    elim (Bool-cases (is_slash mainpwd)) [
      | inl root ↦ rw (trim_pwd, root) (suffix_of_suffix p [] p refl)
      | inr other ↦
          elim (Bool-cases
            (ends_with_slash mainpwd && not (starts_with_slash (trim_prefix p mainpwd)))) [
              | inl put ↦
                  rw (trim_pwd, other, put)
                    (front, is ∙ ap (λ l. front ++ l) (sym (trim_slash (trim_prefix p mainpwd))))
              | inr bare ↦
                  rw (trim_pwd, other, bare) (suffix_of_suffix p front (trim_prefix p mainpwd) is)
            ]
    ]

behind_prefix_self : (pre rest : List ℕ) → behind_prefix (pre ++ rest) pre ≡ some rest
unfolding behind_prefix
behind_prefix_self [] rest = refl
behind_prefix_self (c ∷ pre) rest = ground (arith, behind_prefix_self pre rest)

or_given-suffix :
    (p t front : List ℕ)
    → p ≡ front ++ t
    → ((more : List ℕ) × (p ≡ more ++ or_given p t)) × ((or_given p t ≡ []) ↔ (p ≡ []))
or_given-suffix p [] front h = (([], refl), (λ e. e, λ e. e))
or_given-suffix p (c ∷ t) front h =
    ((front, h), (λ e. absurd (ground arith), λ e. absurd (not_empty front (sym h ∙ e))))
  where
    not_empty : (f : List ℕ) → f ++ c ∷ t ≢ []
    not_empty [] e = ground arith
    not_empty (d ∷ f) e = ground arith

trim_prefix_behind :
    (s pre rest : List ℕ) → behind_prefix s pre ≡ some rest → trim_prefix s pre ≡ rest
unfolding trim_prefix
trim_prefix_behind s pre rest h = rw (trim_prefix, h) refl

trim_prefix_miss : (s pre : List ℕ) → behind_prefix s pre ≡ none → trim_prefix s pre ≡ s
unfolding trim_prefix
trim_prefix_miss s pre h = rw (trim_prefix, h) refl

trim_pwd_below :
    (mainpwd rest : List ℕ)
    → is_slash mainpwd ≡ false
    → ends_with_slash mainpwd ≡ false
    → trim_pwd mainpwd (mainpwd ++ rest) ≡ rest
unfolding trim_pwd
trim_pwd_below mainpwd rest other bare =
    rw (trim_pwd, other, bare)
      (trim_prefix_behind (mainpwd ++ rest) mainpwd rest (behind_prefix_self mainpwd rest))

-- Cleanmodulepath returns the end of the path that it is given, and nothing only for nothing. A path
-- below the working directory, where that is neither the root nor written with a slash at its end and
-- the path does not begin with the module's path, is returned relative to the working directory.
pub clean_module_path-suffix :
    (cmdprefix mainpwd p rel : List ℕ) (c : ℕ)
    → ((front : List ℕ) × (p ≡ front ++ clean_module_path cmdprefix mainpwd p))
      × ((clean_module_path cmdprefix mainpwd p ≡ []) ↔ (p ≡ []))
      × ((is_slash mainpwd ≡ true)
          ⊎ ((ends_with_slash mainpwd ≡ true)
              ⊎ ((behind_prefix (mainpwd ++ (b'/' ∷ c ∷ rel)) cmdprefix ≢ none)
                  ⊎ (clean_module_path cmdprefix mainpwd (mainpwd ++ (b'/' ∷ c ∷ rel)) ≡ c ∷ rel))))
unfolding clean_module_path
clean_module_path-suffix cmdprefix mainpwd p rel c =
    let (f1, is1) = trim_prefix-suffix p cmdprefix in
    let (f2, is2) = trim_pwd-suffix mainpwd (trim_prefix p cmdprefix) in
    let t = trim_prefix (trim_pwd mainpwd (trim_prefix p cmdprefix)) slash in
    let whole = is1 ∙ ap (λ l. f1 ++ l) is2 ∙ sym (append_assoc f1 f2 t) in
    let (suffix, empty) = or_given-suffix p t (f1 ++ f2) whole in
    let full = mainpwd ++ (b'/' ∷ c ∷ rel) in
    (
      suffix,
      empty,
      elim (Bool-cases (is_slash mainpwd)) [
        | inl root ↦ inl root
        | inr other ↦ elim (Bool-cases (ends_with_slash mainpwd)) [
          | inl slashed ↦ inr (inl slashed)
          | inr bare ↦ elim (Option-cases (behind_prefix full cmdprefix)) [
            | inr (rest, in_module) ↦ inr (inr (inl (λ e. cc (e, in_module))))
            | inl foreign ↦ inr (
                inr (
                  inr (
                    ap (or_given full) (
                      ap (λ l. trim_prefix (trim_pwd mainpwd l) slash)
                        (trim_prefix_miss full cmdprefix foreign)
                      ∙ ap (λ l. trim_prefix l slash)
                          (trim_pwd_below mainpwd (b'/' ∷ c ∷ rel) other bare)
                      ∙ trim_slash (c ∷ rel)))))
          ]
        ]
      ],
    )
