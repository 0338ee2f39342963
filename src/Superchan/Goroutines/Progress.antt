-- ===== src/Superchan/Goroutines/Progress.antt =====
-- The scheduler is never stuck, and every schedule ends.
use mostly.Common.{
  ℕ, suc, ◌+◌, ◌*◌, ◌≡◌, ap, ◌⊎◌, inl, inr, List, [], ◌∷◌, Bool, arith, length, length-append,
  List-cases,
}
use mostly.Superchan.Goroutines.{
  Event, Pool, Step, go_statement, begins, ends, wait_returns, IsOver, Steps, here, one_more,
}

-- What is left to do, in steps.
abbrev group_work : {F : Type 0} → List (List F) → ℕ
group_work [] = 0
group_work (g ∷ gs) = 1 + 3 * length g + group_work gs

module _ {F : Type 0} (panics : F → Bool) where
  abbrev pub work : Pool F → ℕ
  work p = group_work p.groups + 3 * length p.pending + 2 * length p.waiting + length p.running

  pub Step-work : {p q : Pool F} {es : List (Event F)} → Step panics p es q → work p ≡ suc (work q)
  Step-work {p} (go_statement f rest e) = omega (arith, ap length e)
  Step-work {p} (begins xs f ys e) =
      omega (arith, ap length e, length-append xs (f ∷ ys), length-append xs ys)
  Step-work {p} (ends xs f ys e) =
      omega (arith, ap length e, length-append xs (f ∷ ys), length-append xs ys)
  Step-work {p} (wait_returns group later e e1 e2 e3) =
      omega (arith, ap group_work e, ap length e1, ap length e2, ap length e3)

  -- A pool that is not over has a next step.
  pub progress :
      (p : Pool F) → IsOver p ⊎ ((es : List (Event F)) × (q : Pool F) × Step panics p es q)
  progress p = elim (List-cases p.pending) [
    | inr (f, rest, e) ↦ inr (_, _, go_statement f rest e)
    | inl e ↦ elim (List-cases p.waiting) [
      | inr (f, rest, e1) ↦ inr (_, _, begins [] f rest e1)
      | inl e1 ↦ elim (List-cases p.running) [
        | inr (f, rest, e2) ↦ inr (_, _, ends [] f rest e2)
        | inl e2 ↦ elim (List-cases p.groups) [
          | inr (g, gs, e3) ↦ inr (_, _, wait_returns g gs e3 e e1 e2)
          | inl e3 ↦
              inl (record { no_group = e3; no_pending = e; no_waiting = e1; no_running = e2 })
        ]
      ]
    ]
  ]

  -- However the goroutines are scheduled, rundeferred is over after exactly as many steps as there
  -- is work: after n steps n units of work are gone, and as long as any are left a step can be made.
  pub Steps-work :
      {p q : Pool F} {n : ℕ}
      → Steps panics p n q
      → (work p ≡ n + work q)
        × (IsOver q ⊎ ((es : List (Event F)) × (r : Pool F) × Step panics q es r))
  Steps-work here = (omega arith, progress _)
  Steps-work (one_more st rest) =
      let (w, more) = Steps-work rest in (omega (arith, Step-work st), more)
