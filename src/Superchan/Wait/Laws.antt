-- ===== src/Superchan/Wait/Laws.antt =====
-- Wait ends, and why.
use mostly.Common.{
  ℕ, zero, suc, ◌+◌, ◌*◌, ◌≤◌, ◌<◌, ◌≡◌, ◌⊎◌, inl, inr, arith, Bool, true, false, Option, none,
  some, ltb, Bool-cases, Option-cases, ℕ_discrete, subst,
}
use mostly.Cancellable.Context.{Err, Store, cause}
use mostly.Cancellable.Handle.{wait}
use mostly.Superchan.State.{Superchan, is_dead, ctx}
use mostly.Superchan.Wait.{Polled, seen_dead, timed_out, poll, poll_pause, wait_superchan}

module _ (max_wait : ℕ) (elapsed : ℕ → ℕ) (dead_at : ℕ → Bool) where
  -- Nothing was seen dead in the polls from the first to before the last.
  abbrev pub AliveFrom : ℕ → ℕ → Type 0
  AliveFrom first last = (n : ℕ) → first ≤ n → n < last → dead_at n ≡ false

  abbrev pub Ends : ℕ → Option Polled → Type 0
  Ends first r =
      ((n : ℕ) × (r ≡ some (seen_dead n))
        × (elapsed n < max_wait)
        × (dead_at n ≡ true)
        × (first ≤ n)
        × AliveFrom first n)
      ⊎ ((n : ℕ) × (r ≡ some (timed_out n))
          × (max_wait ≤ elapsed n)
          × (first ≤ n)
          × AliveFrom first n)

  alive_cons : (n last : ℕ) → dead_at n ≡ false → AliveFrom (suc n) last → AliveFrom n last
  alive_cons n last h rest m lo hi = elim (ℕ_discrete n m) [
    | yes e ↦ subst (λ k. dead_at k ≡ false) e h
    | no ne ↦ rest m (omega arith) hi
  ]

  poll-Ends :
      ((n : ℕ) → elapsed n + poll_pause ≤ elapsed (suc n))
      → (rounds n : ℕ) → max_wait ≤ elapsed n + rounds * poll_pause
      → Ends n (poll max_wait elapsed dead_at (suc rounds) n)
  unfolding poll
  poll-Ends sleeps zero n h =
      inr (n, ground arith, omega arith, omega arith, λ m lo hi. absurd (omega arith))
  poll-Ends sleeps (suc rounds) n h = elim (Bool-cases (ltb (elapsed n) max_wait)) [
    | inr late ↦ inr (n, rw late, ground arith, omega arith, λ m lo hi. absurd (omega arith))
    | inl early ↦ elim (Bool-cases (dead_at n)) [
      | inl dead ↦
          inl
            (n, rw (early, dead), ground arith, dead, omega arith, λ m lo hi. absurd (omega arith))
      | inr alive ↦ elim (poll-Ends sleeps rounds (suc n) (omega (arith, sleeps n))) [
        | inl (m, e, t, d, lo, a) ↦
            inl (m, rw (early, alive) e, t, d, omega arith, alive_cons n m alive a)
        | inr (m, e, t, lo, a) ↦
            inr (m, rw (early, alive) e, t, omega arith, alive_cons n m alive a)
      ]
    ]
  ]

  -- Wait blocks as long as the context is not done. Then it returns the context's cause. Where every
  -- pause lasts its full time, it polls at most once more than there are pauses in the longest wait;
  -- it stops at the first poll that sees the superchan dead, or at the first whose time is up.
  pub wait_superchan_lem :
      {F T : Type 0} (s : Superchan F T) (store : Store) (rounds : ℕ)
      → ((n : ℕ) → elapsed n + poll_pause ≤ elapsed (suc n))
      → max_wait ≤ rounds * poll_pause
      → ((cause store (ctx s) ≡ none)
          × (wait_superchan max_wait elapsed dead_at (suc rounds) s store ≡ none))
        ⊎ ((e : Err) × (r : Option Polled) × (cause store (ctx s) ≡ some e)
            × (wait_superchan max_wait elapsed dead_at (suc rounds) s store ≡ some (e, r))
            × Ends 0 r)
  unfolding wait_superchan wait
  wait_superchan_lem s store rounds sleeps h = elim (Option-cases (cause store (ctx s))) [
    | inl q ↦ inl (q, rw (q, wait_superchan))
    | inr (e, q) ↦ inr (e, _, q, rw (q, wait_superchan), poll-Ends sleeps rounds 0 (omega arith))
  ]

-- Where the context is done and the superchan dead before the time is up, the first poll ends Wait.
pub wait_superchan_dead :
    {F T : Type 0} (max_wait : ℕ) (elapsed : ℕ → ℕ) (rounds : ℕ) (s : Superchan F T) (store : Store)
    (e : Err)
    → cause store (ctx s) ≡ some e
    → is_dead s ≡ true
    → elapsed 0 < max_wait
    → wait_superchan max_wait elapsed (λ n. is_dead s) (suc rounds) s store
      ≡ some (e, some (seen_dead 0))
unfolding wait_superchan poll wait
wait_superchan_dead max_wait elapsed rounds s store e done dead early =
    let soon : ltb (elapsed 0) max_wait ≡ true = ground arith in
    rw (done, wait_superchan, soon, dead)
