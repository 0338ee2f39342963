-- ===== src/Superchan/Pair/Phases.antt =====
-- What holds in the phases of NewDouble without goroutines for its calls, and what a call keeps.
use mostly.Common.{
  ℕ, suc, ◌≡◌, ◌≢◌, ◌⊎◌, refl, ap, inl, inr, List, ◌∷◌, ◌++◌, length, length-append, arith, Bool,
  true, false, Option-cases,
}
use mostly.Cancellable.Context.{Store}
use mostly.Cancellable.Chan.{Channel, try_send}
use mostly.Superchan.State.{Superchan, ok, is_dead, defer}
use mostly.Superchan.State.Laws.{defer-eq-ok}
use mostly.Superchan.Double.{
  HandlerResult, DoubleEnd, send_panicked, Handledoublein, already_done, handler_fails, handled,
  sees_done, sends, hands_over, send_panics,
}
use mostly.Superchan.Pair.{PairPhase, at_test, at_select, in_call, at_close, gone, crashed}

-- What holds in a phase: how many calls there are, whether the first superchan is dead, and whether
-- each channel is closed.
abbrev pub Fits : PairPhase → ℕ → Bool → Bool → Bool → Type 0
Fits at_test n dead a b = (n ≡ 0) × (dead ≡ false) × (a ≡ false) × (b ≡ false)
Fits at_select n dead a b = (n ≡ 0) × (dead ≡ false) × (a ≡ false) × (b ≡ false)
Fits in_call n dead a b = (n ≡ 1) × (dead ≡ false) × (a ≡ false) × (b ≡ false)
Fits (at_close p) n dead a b = (n ≡ 0) × (p ≡ false) × (a ≡ false) × (b ≡ false)
Fits gone n dead a b = n ≡ 0
Fits crashed n dead a b = ⊥

-- Where there is a call, the goroutine waits for it.
pub busy :
    (ph : PairPhase) (n : ℕ) (dead a b : Bool)
    → Fits ph (suc n) dead a b
    → (ph ≡ in_call) × (n ≡ 0) × (dead ≡ false) × (a ≡ false) × (b ≡ false)
busy at_test n dead a b fits = absurd (omega (arith, fits.0))
busy at_select n dead a b fits = absurd (omega (arith, fits.0))
busy in_call n dead a b (one, alive, x, y) = (refl, omega (arith, one), alive, x, y)
busy (at_close p) n dead a b fits = absurd (omega (arith, fits.0))
busy gone n dead a b fits = absurd (omega (arith, fits))
busy crashed n dead a b fits = absurd fits

pub Fits-dead :
    (ph : PairPhase) (n : ℕ) (dead now a b : Bool)
    → (dead ≡ false → now ≡ false)
    → Fits ph n dead a b
    → Fits ph n now a b
Fits-dead at_test n dead now a b still (x, y, z, w) = (x, still y, z, w)
Fits-dead at_select n dead now a b still (x, y, z, w) = (x, still y, z, w)
Fits-dead in_call n dead now a b still (x, y, z, w) = (x, still y, z, w)
Fits-dead (at_close p) n dead now a b still fits = fits
Fits-dead gone n dead now a b still fits = fits
Fits-dead crashed n dead now a b still fits = fits

pub length-middle :
    {A : Type 0} (xs : List A) (v : A) (ys : List A)
    → length (xs ++ v ∷ ys) ≡ suc (length (xs ++ ys))
length-middle xs v ys = omega (arith, length-append xs (v ∷ ys), length-append xs ys)

pub Handledoublein-closed :
    {F T : Type 0} (res : HandlerResult T) (s s2 : Superchan F T) (v : T) (began t : Store)
    (c : Channel T) (end : DoubleEnd)
    → res.ch ≡ s2.chan.ch
    → Handledoublein (λ _ _. res) s s2 v began t c end
    → c.closed ≡ s2.chan.ch.closed
unfolding try_send
Handledoublein-closed res s s2 v began t c end same (already_done d) = refl
Handledoublein-closed res s s2 v began t c end same (handler_fails e u d er call) =
    ap (λ x. x.closed) same
Handledoublein-closed res s s2 v began t c end same (handled d er out) = ap (λ x. x.closed) same
Handledoublein-closed res s s2 v began t c end same (sees_done w d er out now) =
    ap (λ x. x.closed) same
Handledoublein-closed res s s2 v began t c end same (sends w c2 d er out sent) = ground arith
Handledoublein-closed res s s2 v began t c end same (hands_over w d er out o x) =
    ap (λ x. x.closed) same
Handledoublein-closed res s s2 v began t c end same (send_panics w d er out sent) =
    ap (λ x. x.closed) same

pub send_panicked-closed :
    {F T : Type 0} (res : HandlerResult T) (s s2 : Superchan F T) (v : T) (began t : Store)
    (c : Channel T)
    → Handledoublein (λ _ _. res) s s2 v began t c send_panicked
    → res.ch.closed ≡ true
unfolding try_send
send_panicked-closed res s s2 v began t c (send_panics w d er out sent) = ground arith

pub defer_alive :
    {F T : Type 0} (f : List F) (s t : Superchan F T) (store : Store)
    → is_dead s ≡ false
    → defer f s store ≡ ok t
    → is_dead t ≡ false
unfolding is_dead
defer_alive f s t store alive d = elim (Option-cases s.deferfuncs) [
  | inl none_left ↦ absurd (ground arith)
  | inr (fs, has) ↦ rw (defer-eq-ok s store t f fs has d) refl
]

pub Fits-count :
    (ph : PairPhase) (n : ℕ) (dead a b : Bool)
    → Fits ph n dead a b
    → ph ≢ crashed × ((ph ≡ in_call) × (n ≡ 1) ⊎ (n ≡ 0))
Fits-count at_test n dead a b fits = ((λ e. cc e), inr fits.0)
Fits-count at_select n dead a b fits = ((λ e. cc e), inr fits.0)
Fits-count in_call n dead a b fits = ((λ e. cc e), inl (refl, fits.0))
Fits-count (at_close p) n dead a b fits = ((λ e. cc e), inr fits.0)
Fits-count gone n dead a b fits = ((λ e. cc e), inr fits)
Fits-count crashed n dead a b fits = absurd fits
