-- ===== src/Superchan/Goroutines/Barriers.antt =====
-- The events of a run fall into one stretch for each group, in the order of the groups.
use mathlib.Core.List.{perm_middle}
use mathlib.Core.List.Perm
use mostly.Common.{◌≡◌, refl, ap, List, [], ◌∷◌, ◌++◌, map, Perm, Bool, append-nil}
use mostly.Superchan.Goroutines.{
  Event, began, Pool, Step, ending, go_statement, begins, ends, wait_returns, Run, over, step,
  start,
}

module _ {F : Type 0} (panics : F → Bool) where
  -- The two events of each function of a group.
  abbrev pub both : List F → List (Event F)
  both [] = []
  both (f ∷ fs) = began f ∷ ending panics f ∷ both fs

  -- For each group a stretch of events: the two events of each of its functions, once each, in any
  -- order.
  abbrev pub Stretches : List (List F) → List (Event F) → Type 0
  Stretches [] es = es ≡ []
  Stretches (g ∷ gs) es =
      (now : List (Event F)) × (later : List (Event F)) × (es ≡ now ++ later)
      × Perm now (both g)
      × Stretches gs later

  -- The events that the present group still owes.
  abbrev owed : Pool F → List (Event F)
  owed p = both p.pending ++ (both p.waiting ++ map (ending panics) p.running)

  two_middle :
      (x y : Event F) (xs ys : List (Event F)) → Perm (xs ++ x ∷ y ∷ ys) (x ∷ y ∷ (xs ++ ys))
  two_middle x y xs ys = Perm.trans (perm_middle xs (y ∷ ys)) (Perm.cons x (perm_middle xs ys))

  both-middle :
      (xs : List F) (f : F) (ys : List F)
      → Perm (both (xs ++ f ∷ ys)) (began f ∷ ending panics f ∷ both (xs ++ ys))
  both-middle [] f ys = Perm.refl _
  both-middle (x ∷ xs) f ys =
      Perm.trans (Perm.cons _ (Perm.cons _ (both-middle xs f ys)))
        (two_middle (began f) (ending panics f) (began x ∷ ending panics x ∷ []) (both (xs ++ ys)))

  map-middle :
      (xs : List F) (f : F) (ys : List F)
      → Perm (map (ending panics) (xs ++ f ∷ ys)) (ending panics f ∷ map (ending panics) (xs ++ ys))
  map-middle xs f ys = Perm.map _ (perm_middle xs ys)

  deep_middle :
      (x : Event F) (xs ys zs : List (Event F))
      → Perm (x ∷ (xs ++ (ys ++ zs))) (xs ++ (ys ++ x ∷ zs))
  deep_middle x xs ys zs =
      Perm.symm (Perm.trans (Perm.append_left xs (perm_middle ys zs)) (perm_middle xs (ys ++ zs)))

  -- A goroutine that begins moves the end of its function from the second part to the third.
  begin_owed :
      (ps : List (Event F)) (xs : List F) (f : F) (ys rs : List F)
      → Perm
          (began f ∷ (ps ++ (both (xs ++ ys) ++ map (ending panics) (f ∷ rs))))
          (ps ++ (both (xs ++ f ∷ ys) ++ map (ending panics) rs))
  begin_owed ps xs f ys rs =
      Perm.trans
        (Perm.cons _
          (Perm.symm (deep_middle (ending panics f) ps (both (xs ++ ys)) (map (ending panics) rs))))
        (Perm.trans
          (Perm.symm
            (two_middle (began f) (ending panics f) ps (both (xs ++ ys) ++ map (ending panics) rs)))
          (Perm.append_left ps
            (Perm.append_right (map (ending panics) rs) (Perm.symm (both-middle xs f ys)))))

  end_owed :
      (ps ws : List (Event F)) (xs : List F) (f : F) (ys : List F)
      → Perm
          (ending panics f ∷ (ps ++ (ws ++ map (ending panics) (xs ++ ys))))
          (ps ++ (ws ++ map (ending panics) (xs ++ f ∷ ys)))
  end_owed ps ws xs f ys =
      Perm.trans (deep_middle (ending panics f) ps ws (map (ending panics) (xs ++ ys)))
        (Perm.append_left ps (Perm.append_left ws (Perm.symm (map-middle xs f ys))))

  abbrev OwedThen : Pool F → List (Event F) → Type 0
  OwedThen p es =
      (now : List (Event F)) × (later : List (Event F)) × (es ≡ now ++ later)
      × Perm now (owed p)
      × Stretches p.groups later

  Step-owed :
      {p q : Pool F} {es fs : List (Event F)}
      → Step panics p es q
      → OwedThen q fs
      → OwedThen p (es ++ fs)
  Step-owed {p} (go_statement f rest e) (now, later, eq, perm, st) = (
    now,
    later,
    eq,
    Perm.trans perm (simp e (two_middle (began f) (ending panics f) (both rest) _)),
    st,
  )
  Step-owed {p} (begins xs f ys e) (now, later, eq, perm, st) = (
    began f ∷ now,
    later,
    ap (◌∷◌ (began f)) eq,
    Perm.trans (Perm.cons _ perm) (simp e (begin_owed (both p.pending) xs f ys p.running)),
    st,
  )
  Step-owed {p} (ends xs f ys e) (now, later, eq, perm, st) = (
    ending panics f ∷ now,
    later,
    ap (◌∷◌ (ending panics f)) eq,
    Perm.trans (Perm.cons _ perm) (simp e (end_owed (both p.pending) (both p.waiting) xs f ys)),
    st,
  )
  Step-owed {p} (wait_returns group later e e1 e2 e3) (now, after, eq, perm, st) = (
    [],
    now ++ after,
    eq,
    simp (e1, e2, e3) (Perm.refl _),
    simp e (now, after, refl, simp append-nil at perm, st),
  )

  Run-owed : {p : Pool F} {es : List (Event F)} → Run panics p es → OwedThen p es
  Run-owed (over o) =
      ([], [], refl, simp (o.no_pending, o.no_waiting, o.no_running) (Perm.refl _), simp o.no_group)
  Run-owed (step st r e) = rw e (Step-owed st (Run-owed r))

  pub Run-Stretches :
      (first : List F) (later : List (List F)) (es : List (Event F))
      → Run panics (start first later) es
      → Stretches (first ∷ later) es
  Run-Stretches first later es r =
      let (now, after, e, perm, st) = Run-owed r in (now, after, e, simp append-nil at perm, st)
