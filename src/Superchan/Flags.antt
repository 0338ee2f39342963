-- ===== src/Superchan/Flags.antt =====
-- superchan/superchan.go: Flags, and what calls of Set on its two flags make of their variables. The
-- package flag calls Set for each argument, with "true" for a flag without a value.
pub mod Laws
mod Tests
use mostly.Common.{ℕ, List, [], ◌∷◌, Bool, true, false, not, Option, none, some, if◌then◌else◌}
use mostly.Flags.{Strconv, SetError, new_bool_value, set_flag}
use mostly.Superchan.State.{Config}

-- "defer-first", which inverts CancelBeforeDefer, and "defer-ordered", which inverts UseGoroutineDefer.
pub data FlagName : Type 0 where
  first_flag ordered_flag : FlagName

-- A call of Set: the flag and the text.
abbrev pub SetCall : Type 0
SetCall = FlagName × List ℕ

module _ {E : Type 0} (strconv : Strconv E) where
  open strconv use {parse_bool, format_bool}

  unfoldable pub flags : Config → Config
  unfolding new_bool_value
  flags cfg = record {
    cancel_before_defer = new_bool_value strconv cfg.cancel_before_defer cfg.cancel_before_defer;
    use_goroutine_defer = new_bool_value strconv cfg.use_goroutine_defer cfg.use_goroutine_defer;
  }

  unfoldable pub set_one : SetCall → Config → Config × Option (SetError E)
  unfolding set_flag
  set_one (first_flag, text) cfg =
      let (b, err) = set_flag strconv text cfg.cancel_before_defer in
      (record cfg { cancel_before_defer = b }, err)
  set_one (ordered_flag, text) cfg =
      let (b, err) = set_flag strconv text cfg.use_goroutine_defer in
      (record cfg { use_goroutine_defer = b }, err)

  -- Calls of Set in order, up to the first error.
  unfoldable pub set_all : List SetCall → Config → Config × Option (SetError E)
  unfolding set_one
  set_all [] cfg = (cfg, none)
  set_all (a ∷ rest) cfg =
      let (next, err) = set_one a cfg in
      let after = set_all rest next in elim err [ none ↦ after | some e ↦ (next, some e) ]
