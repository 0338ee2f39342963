-- ===== src/Superchan/Reader/Laws.antt =====
-- When the reader loop of New runs the deferred functions, and when it does not.
use mostly.Common.{
  ℕ, ◌<◌, ◌≡◌, ◌≢◌, refl, ◌∙◌, none, inl, inr, List, [], arith, Bool, true, false, Option, some,
  length, Option-cases, Bool-cases,
}
use mostly.Cancellable.Context.{Err, Store, cause, cancel}
use mostly.Cancellable.Context.Laws.{cause-cancel_done, cause-cancel_self}
use mostly.Cancellable.Handle.{call_cancel}
use mostly.Superchan.State.{
  Superchan, Config, ok, is_dead, ctx, clear, has_err, defer, set_deferred,
}
use mostly.Superchan.State.Laws.{defer-eq-ok}
use mostly.Superchan.Goroutines.{Event}
use mostly.Superchan.Rundeferred.{
  Rundeferred, Finish, finished, twice, in_goroutines, in_sequence, cut_short,
}
use mostly.Superchan.Rundeferred.Laws.{Rundeferred-finished}
use mostly.Superchan.Reader.{
  at_select, Reader, Step, loop_ends, loop_goes_on, takes_done, done_panics, takes_input,
  hands_over_input, handler_returns, others_cancel, others_defer, others_set_deferred,
  others_use_channel, KeepsFuncs, Run, here, next, handle_input,
}

pub has_err-cancel :
    {F T : Type 0} (s : Superchan F T) (store : Store) (id : ℕ) (e : Option Err)
    → has_err s store ≡ true
    → has_err s (cancel store id e) ≡ true
has_err-cancel s store id e h = elim (Option-cases (cause store (ctx s))) [
  | inl q ↦ ground arith
  | inr (c, q) ↦ ground (arith, cause-cancel_done store id e (ctx s) q)
]

pub has_err-handle_input :
    {F T : Type 0} (handler : T → Option Err) (v : T) (s : Superchan F T) (store after : Store)
    → handle_input handler v s store ≡ some after
    → has_err s store ≡ true
    → has_err s after ≡ true
unfolding handle_input call_cancel
has_err-handle_input handler v s store after h d = elim (Option-cases (handler v)) [
  | inl q ↦ ground arith
  | inr (e, q) ↦ elim (Option-cases s.chan.handle.cancel_func) [
    | inl p ↦ ground arith
    | inr (id, p) ↦ ground (arith, has_err-cancel s store id (some e))
  ]
]

pub defer_done :
    {F T : Type 0} (f : List F) (s t : Superchan F T) (store : Store)
    → has_err s store ≡ true
    → ¬ (defer f s store ≡ ok t)
unfolding defer
defer_done f s t store d h = ground arith

pub set_deferred_alive :
    {F T : Type 0} (fs : Option (List F)) (s : Superchan F T)
    → fs ≢ none
    → is_dead (set_deferred fs s) ≡ false
unfolding is_dead set_deferred
set_deferred_alive none s ne = absurd (ne refl)
set_deferred_alive (some fs) s ne = refl

-- SetDeferred leaves the context as it is.
pub has_err-set_deferred :
    {F T : Type 0} (fs : Option (List F)) (s : Superchan F T) (store : Store)
    → has_err (set_deferred fs s) store ≡ has_err s store
unfolding set_deferred
has_err-set_deferred fs s store = refl

-- The loop has been left, or is about to be, and no deferred function was called.
pub record Skipped {F : Type 0} {T : Type 0} (r : Reader F T) : Type 0 where
  pub leaving : r.phase ≢ at_select
  pub done : has_err r.chan r.store ≡ true
  pub alive : is_dead r.chan ≡ false

module _ {F T : Type 0} (panics : F → Bool) (cfg : Config) (handler : T → Option Err)
    (parallel : Bool) (zero_value : T) where
  Skipped-Step :
      {r s : Reader F T} {es : List (Event F)}
      → (step : Step panics cfg handler parallel zero_value r es s) → KeepsFuncs step
      → Skipped r
      → Skipped s × (es ≡ [])
  unfolding is_dead
  Skipped-Step (loop_ends p d) keeps k =
      (record { leaving = λ q. cc; done = k.done; alive = k.alive }, refl)
  Skipped-Step (loop_goes_on p d) keeps k = cc (k.done)
  Skipped-Step (takes_done es t p d run) keeps k = absurd (k.leaving p)
  Skipped-Step (done_panics es t fin p d run bad) keeps k = absurd (k.leaving p)
  Skipped-Step (takes_input v c store p q g h) keeps k = absurd (k.leaving p)
  Skipped-Step (hands_over_input v c p q g) keeps k = absurd (k.leaving p)
  Skipped-Step {r} (handler_returns xs v ys store e h) keeps k = (
    record {
      leaving = k.leaving;
      done = has_err-handle_input handler v r.chan r.store store h k.done;
      alive = k.alive;
    },
    refl,
  )
  Skipped-Step {r} (others_cancel id e) keeps k = (
    record {
      leaving = k.leaving;
      done = has_err-cancel r.chan r.store id e k.done;
      alive = k.alive;
    },
    refl,
  )
  Skipped-Step {r} (others_defer f t d) keeps k = absurd (defer_done f r.chan t r.store k.done d)
  Skipped-Step {r} (others_set_deferred fs) keeps k = (
    record {
      leaving = k.leaving;
      done = has_err-set_deferred fs r.chan r.store ∙ k.done;
      alive = set_deferred_alive fs r.chan keeps;
    },
    refl,
  )
  Skipped-Step {r} (others_use_channel c) keeps k =
      (record { leaving = k.leaving; done = k.done; alive = k.alive }, refl)

  pub Skipped-Run :
      {r s : Reader F T} {es : List (Event F)}
      → Run panics cfg handler parallel zero_value r es s
      → Skipped r
      → Skipped s × (es ≡ [])
  Skipped-Run here k = (k, refl)
  Skipped-Run (next st keeps rest) k =
      let (k1, e1) = Skipped-Step st keeps k in
      let (k2, e2) = Skipped-Run rest k1 in (k2, rw (e1, e2))

pub has_err-handle_error :
    {F T : Type 0} (handler : T → Option Err) (v : T) (e : Err) (s : Superchan F T)
    (store after : Store)
    → s.chan.handle.cancel_func ≡ some (ctx s)
    → ctx s < length store
    → handler v ≡ some e
    → handle_input handler v s store ≡ some after
    → has_err s after ≡ true
unfolding handle_input call_cancel
has_err-handle_error handler v e s store after own there bad h =
    ground (arith, cause-cancel_self store (ctx s) (some e) there)

Rundeferred-unfinished :
    {F T : Type 0} {panics : F → Bool} {cfg : Config} {s t : Superchan F T} {es : List (Event F)}
    {fin : Finish}
    → Rundeferred panics cfg s es t fin
    → fin ≢ finished
    → t ≡ s
Rundeferred-unfinished (twice d) bad = refl
Rundeferred-unfinished (in_goroutines a h r) bad = absurd (bad refl)
Rundeferred-unfinished (in_sequence a h e) bad = absurd (bad refl)
Rundeferred-unfinished (cut_short a h e) bad = refl

defer_alive :
    {F T : Type 0} (f : List F) (s t : Superchan F T) (store : Store)
    → (is_dead s ≡ true → has_err s store ≡ true)
    → defer f s store ≡ ok t
    → is_dead t ≡ false
unfolding is_dead
defer_alive f s t store k d = elim (Option-cases s.deferfuncs) [
  | inl q ↦ absurd (defer_done f s t store (k (rw (q, is_dead))) d)
  | inr (fs, q) ↦ rw (defer-eq-ok s store t f fs q d)
]

-- The reader has not run the deferred functions, or it is past its last `select`.
record Once {F : Type 0} {T : Type 0} (r : Reader F T) : Type 0 where
  dead_done : is_dead r.chan ≡ true → has_err r.chan r.store ≡ true
  dead_left : is_dead r.chan ≡ true → r.phase ≢ at_select

module _ {F T : Type 0} (panics : F → Bool) (cfg : Config) (handler : T → Option Err)
    (parallel : Bool) (zero_value : T) where
  Once-Step :
      {r s : Reader F T} {es : List (Event F)}
      → (step : Step panics cfg handler parallel zero_value r es s) → KeepsFuncs step
      → Once r
      → Once s
  unfolding is_dead
  Once-Step {r} (loop_ends p d) keeps k = record { dead_done = k.dead_done; dead_left = λ _ q. cc }
  Once-Step {r} (loop_goes_on p d) keeps k = record {
    dead_done = k.dead_done;
    dead_left = λ q. cc (k.dead_done q);
  }
  Once-Step {r} (takes_done es t p d run) keeps k =
      let (_, cleared, _, _) = Rundeferred-finished panics cfg run in
      record { dead_done = λ _. unfold clear in rw cleared d; dead_left = λ _ q. cc }
  Once-Step {r} (done_panics es t fin p d run bad) keeps k = record {
    dead_done = λ _. rw (Rundeferred-unfinished run bad) d;
    dead_left = λ _ q. cc;
  }
  Once-Step {r} (takes_input v c store p q g h) keeps k = record {
    dead_done = λ dead. absurd (k.dead_left dead p);
    dead_left = λ dead _. k.dead_left dead p;
  }
  Once-Step {r} (hands_over_input v c p q g) keeps k = record {
    dead_done = k.dead_done;
    dead_left = λ dead _. k.dead_left dead p;
  }
  Once-Step {r} (handler_returns xs v ys store e h) keeps k = record {
    dead_done = λ dead. has_err-handle_input handler v r.chan r.store store h (k.dead_done dead);
    dead_left = k.dead_left;
  }
  Once-Step {r} (others_cancel id e) keeps k = record {
    dead_done = λ dead. has_err-cancel r.chan r.store id e (k.dead_done dead);
    dead_left = k.dead_left;
  }
  Once-Step {r} (others_defer f t d) keeps k =
      let alive = defer_alive f r.chan t r.store k.dead_done d in
      record { dead_done = λ q. cc; dead_left = λ q. cc }
  Once-Step {r} (others_set_deferred fs) keeps k =
      let alive = set_deferred_alive fs r.chan keeps in
      record { dead_done = λ q. cc; dead_left = λ q. cc }
  Once-Step {r} (others_use_channel c) keeps k = record {
    dead_done = k.dead_done;
    dead_left = k.dead_left;
  }

  Once-Run :
      {r s : Reader F T} {es : List (Event F)}
      → Run panics cfg handler parallel zero_value r es s
      → Once r
      → Once s
  Once-Run here k = k
  Once-Run (next st keeps rest) k = Once-Run rest (Once-Step st keeps k)

  -- From a superchan that is not dead, whatever the goroutine, the handlers and others do, but for a
  -- call of SetDeferred(nil), the reader calls rundeferred on a live superchan only, so that it never
  -- panics because it was called twice.
  pub reader_runs_deferred_once :
      {r s : Reader F T} {es : List (Event F)}
      → is_dead r.chan ≡ false
      → Run panics cfg handler parallel zero_value r es s
      → s.phase ≡ at_select
      → is_dead s.chan ≡ false
  reader_runs_deferred_once {r} {s} alive run p = elim (Bool-cases (is_dead s.chan)) [
    | inl dead ↦
        absurd
          ((Once-Run run (record { dead_done = λ q. cc; dead_left = λ q. cc })).dead_left dead p)
    | inr live ↦ live
  ]
