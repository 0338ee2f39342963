-- ===== src/Httpserver/Serve/Ends.antt =====
-- That listenAndServe comes to its end.
use mostly.Common.{ℕ, suc, ◌≡◌, ◌≢◌, ◌⊎◌, List, Bool, true, false}
use mostly.Httpserver.Serve.{fails, lost, crashed, Event, Serving, program, Step, HasReturned}

module _ (one_closes_both cancel_before_defer : Bool) where
  -- The two functions of the user do not panic, and the others do not or are recovered.
  abbrev IsFine : Serving → Type 0
  IsFine p =
      (fails p.panics p.func1 ≡ false)
      × (fails p.panics p.func ≡ false)
      × ((p.others_panic ≡ false) ⊎ (p.recovers ≡ true))
      × (p.phase ≢ lost)
      × (p.phase ≢ crashed)

  abbrev GoesOn : Serving → Type 0
  GoesOn p =
      (es : List Event) × (q : Serving) × Step one_closes_both cancel_before_defer p program es q

  -- Steps of the program alone, to the end.
  pub data Finishes : Serving → ℕ → Type 0 where
    finished : {p : Serving} → HasReturned p → Finishes p 0
    step :
        {p q : Serving} {n : ℕ} {es : List Event}
        → Step one_closes_both cancel_before_defer p program es q
        → Finishes q n
        → Finishes p (suc n)
