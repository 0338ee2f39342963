-- ===== src/Superchan/Defers.antt =====
-- superchan/superchan.go: calls of Defer, DeferFirst and DeferLast, one after another.
use mostly.Common.{
  ℕ, ◌≡◌, refl, ap, sym, ◌∙◌, inl, inr, List, [], ◌∷◌, ◌++◌, reverse, arith, Option, some,
}
use mostly.Cancellable.Context.{Store}
use mostly.Superchan.State.{Superchan, Outcome, ok, panic, defer, defer_first, defer_last}
use mostly.Superchan.State.Laws.{defer-eq-ok, Outcome-cases}

-- A call of Defer, DeferFirst or DeferLast.
pub data DeferCall (F : Type 0) : Type 0 where
  defers : List F → DeferCall F
  defers_first defers_last : F → DeferCall F

module _ {F : Type 0} where
  unfoldable pub call_defer : DeferCall F → Superchan F ℕ → Store → Outcome (Superchan F ℕ)
  call_defer (defers f) s store = defer f s store
  call_defer (defers_first g) s store = defer_first g s store
  call_defer (defers_last g) s store = defer_last g s store

  -- Calls one after another, each with the contexts as they are then, up to the first panic.
  unfoldable pub call_defers : List (DeferCall F × Store) → Superchan F ℕ → Outcome (Superchan F ℕ)
  unfolding call_defer
  call_defers [] s = ok s
  call_defers ((call, store) ∷ rest) s = elim (call_defer call s store) [
    | panic p ↦ panic p
    | ok t ↦ call_defers rest t
  ]

  -- The functions of the calls of Defer in the order in which they will run, in front of `fs`.
  abbrev pub stacked : List (DeferCall F × Store) → List F → List F
  stacked [] fs = fs
  stacked ((defers f, store) ∷ rest) fs = stacked rest (reverse f ++ fs)
  stacked ((defers_first g, store) ∷ rest) fs = stacked rest fs
  stacked ((defers_last g, store) ∷ rest) fs = stacked rest fs

  -- The function of DeferFirst and that of DeferLast, where there was `o` before.
  abbrev pub first_of : List (DeferCall F × Store) → Option F → Option F
  first_of [] o = o
  first_of ((defers f, store) ∷ rest) o = first_of rest o
  first_of ((defers_first g, store) ∷ rest) o = first_of rest (some g)
  first_of ((defers_last g, store) ∷ rest) o = first_of rest o

  abbrev pub last_of : List (DeferCall F × Store) → Option F → Option F
  last_of [] o = o
  last_of ((defers f, store) ∷ rest) o = last_of rest o
  last_of ((defers_first g, store) ∷ rest) o = last_of rest o
  last_of ((defers_last g, store) ∷ rest) o = last_of rest (some g)

  abbrev pub with_defers : List (DeferCall F × Store) → Superchan F ℕ → List F → Superchan F ℕ
  with_defers calls s fs = record s {
    deferfuncs = some (stacked calls fs);
    deferfirst = first_of calls s.deferfirst;
    deferlast = last_of calls s.deferlast;
  }

  defer_first-eq :
      (g : F) (s t : Superchan F ℕ) (store : Store)
      → defer_first g s store ≡ ok t
      → t ≡ record s { deferfirst = some g }
  unfolding defer_first
  defer_first-eq g s t store h = ground arith

  defer_last-eq :
      (g : F) (s t : Superchan F ℕ) (store : Store)
      → defer_last g s store ≡ ok t
      → t ≡ record s { deferlast = some g }
  unfolding defer_last
  defer_last-eq g s t store h = ground arith

  call_defers_next :
      (call : DeferCall F) (store : Store) (rest : List (DeferCall F × Store)) (s u : Superchan F ℕ)
      → call_defers ((call, store) ∷ rest) s ≡ ok u
      → (t : Superchan F ℕ) × (call_defer call s store ≡ ok t) × (call_defers rest t ≡ ok u)
  unfolding call_defers
  call_defers_next call store rest s u is = elim (Outcome-cases (call_defer call s store)) [
    | inl (t, e) ↦
        let passed : call_defers ((call, store) ∷ rest) s ≡ call_defers rest t =
          rw (call_defers, e) refl in
        (t, e, sym passed ∙ is)
    | inr (p, e) ↦ absurd (ground arith)
  ]

  pub call_defers-ok :
      (calls : List (DeferCall F × Store)) (s u : Superchan F ℕ) (fs : List F)
      → s.deferfuncs ≡ some fs
      → call_defers calls s ≡ ok u
      → u ≡ with_defers calls s fs
  unfolding call_defers call_defer
  call_defers-ok [] s u fs live is = ground arith
  call_defers-ok ((defers f, store) ∷ rest) s u fs live is =
      let (t, called, later) = call_defers_next (defers f) store rest s u is in
      let t_is = defer-eq-ok s store t f fs live called in
      call_defers-ok rest t u (reverse f ++ fs) (ap (λ (x : Superchan F ℕ). x.deferfuncs) t_is)
        later
      ∙ ap (λ (x : Superchan F ℕ). with_defers rest x (reverse f ++ fs)) t_is
  call_defers-ok ((defers_first g, store) ∷ rest) s u fs live is =
      let (t, called, later) = call_defers_next (defers_first g) store rest s u is in
      let t_is = defer_first-eq g s t store called in
      call_defers-ok rest t u fs (ap (λ (x : Superchan F ℕ). x.deferfuncs) t_is ∙ live) later
      ∙ ap (λ (x : Superchan F ℕ). with_defers rest x fs) t_is
  call_defers-ok ((defers_last g, store) ∷ rest) s u fs live is =
      let (t, called, later) = call_defers_next (defers_last g) store rest s u is in
      let t_is = defer_last-eq g s t store called in
      call_defers-ok rest t u fs (ap (λ (x : Superchan F ℕ). x.deferfuncs) t_is ∙ live) later
      ∙ ap (λ (x : Superchan F ℕ). with_defers rest x fs) t_is
