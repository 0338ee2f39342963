-- ===== src/Cancellable/Context/Laws.antt =====
-- Cancelling: the first cause wins, and it reaches the contexts below and no other.
use mostly.Common.{
  ℕ, ◌≤◌, ◌<◌, ◌≡◌, refl, inl, inr, [], ◌∷◌, true, false, Option, none, some, arith, length,
  if◌then◌else◌, Option-cases,
}
use mostly.Cancellable.Context.{
  Err, canceled, Store, get_or, with_cancel_cause, cause, is_done, set_own, cancel, descends,
}

length-set_own : (s : Store) (id : ℕ) (e : Err) → length (set_own s id e) ≡ length s
unfolding set_own
length-set_own [] id e = refl
length-set_own (n ∷ s) id e = ground (arith, length-set_own s id e)

pub length-cancel : (s : Store) (id : ℕ) (e : Option Err) → length (cancel s id e) ≡ length s
unfolding cancel
length-cancel s id e = ground (arith, length-set_own s id (get_or e canceled))

-- Nothing descends from a context that is not there.
descends_absent : (s : Store) (id root : ℕ) → length s ≤ root → descends s id root ≡ false
unfolding descends
descends_absent [] id root h = refl
descends_absent (n ∷ s) id root h = elim (Option-cases n.parent) [
  | inl e ↦ ground (arith, descends_absent s id root)
  | inr (p, e) ↦ ground (arith, descends_absent s id root, descends_absent s p root)
]

-- Below a context that is done, every context is done.
done-descends :
    (s : Store) (id root : ℕ)
    → descends s id root ≡ true
    → is_done (cause s root) ≡ true
    → is_done (cause s id) ≡ true
unfolding descends cause
done-descends [] id root d h = cc
done-descends (n ∷ s) id root d h = elim (Option-cases n.parent) [
  | inl e ↦ ground (arith, done-descends s id root, descends_absent s id root)
  | inr (p, e) ↦ ground (
    arith,
    done-descends s id root,
    done-descends s p root,
    descends_absent s id root,
    descends_absent s p root,
  )
]

cause-set_own :
    (s : Store) (root : ℕ) (e : Err) (id : ℕ)
    → cause s root ≡ none
    → cause (set_own s root e) id
      ≡ (if descends s id root then some (get_or (cause s id) e) else cause s id)
unfolding cause set_own descends
cause-set_own [] root e id h = refl
cause-set_own (n ∷ s) root e id h = elim (Option-cases n.parent) [
  | inl q ↦
      ground (arith, length-set_own s root e, cause-set_own s root e id, descends_absent s id root)
  | inr (p, q) ↦ ground (
    arith,
    length-set_own s root e,
    cause-set_own s root e id,
    cause-set_own s root e p,
    descends_absent s id root,
    descends_absent s p root,
  )
]

-- A cancel function gives its cause, context.Canceled for a nil error, to its own context and to
-- every context below it that is not done yet. Contexts that are done keep their cause, and those
-- that are not below it are not touched.
pub cause-cancel :
    (s : Store) (root : ℕ) (e : Option Err) (id : ℕ)
    → cause (cancel s root e) id
      ≡ (if descends s id root then some (get_or (cause s id) (get_or e canceled)) else cause s id)
unfolding cancel
cause-cancel s root e id = elim (Option-cases (cause s root)) [
  | inl q ↦ rw q (cause-set_own s root (get_or e canceled) id q)
  | inr (c, q) ↦ ground (arith, done-descends s id root)
]

-- A context is done for good: no later call of any cancel function changes its cause.
pub cause-cancel_done :
    (s : Store) (root : ℕ) (e : Option Err) (id : ℕ) {c : Err}
    → cause s id ≡ some c
    → cause (cancel s root e) id ≡ some c
cause-cancel_done s root e id h = ground (arith, cause-cancel s root e id)

descends_self : (s : Store) (id : ℕ) → id < length s → descends s id id ≡ true
unfolding descends
descends_self [] id h = absurd (omega arith)
descends_self (n ∷ s) id h = ground (arith, descends_self s id)

-- The cancel function of a context that is not done makes its own cause that context's.
pub cause-cancel_self :
    (s : Store) (id : ℕ) (e : Option Err)
    → id < length s
    → cause (cancel s id e) id ≡ some (get_or (cause s id) (get_or e canceled))
cause-cancel_self s id e h = ground (arith, cause-cancel s id e id, descends_self s id)

-- A new context is as done as its parent, and making it changes no other.
pub cause-with_cancel_cause :
    (s : Store) (parent : ℕ) (id : ℕ)
    → id < length s
    → let (fresh, t) = with_cancel_cause (some parent) s in
      (cause t fresh ≡ cause s parent) × (cause t id ≡ cause s id)
unfolding with_cancel_cause cause
cause-with_cancel_cause s parent id h = ground arith

pub cause-fresh :
    (s : Store) (parent : ℕ)
    → cause (record { parent = some parent; own = none } ∷ s) (length s) ≡ cause s parent
unfolding cause
cause-fresh s parent = ground arith
