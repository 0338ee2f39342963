-- ===== src/Cancellable/Chan.antt =====
-- cancellable/cancelchan.go: a cancellable context with a buffered channel.
pub mod Laws
use mostly.Common.{
  ℕ, zero, suc, List, [], ◌∷◌, ◌++◌, Bool, true, false, Option, none, some, length, set, replicate,
  ltb, if◌then◌else◌,
}
use mostly.Cancellable.Context.{Store}
use mostly.Cancellable.Handle.{Cancellable, new, new_from}

module _ {ℓ} where
  -- A channel of Go: what is buffered, oldest first, the size of the buffer, and whether `close`
  -- was called.
  pub record Channel (T : Type ℓ) : Type ℓ where
    pub buf : List T
    pub cap : ℕ
    pub closed : Bool

  -- What a receive finds at the moment it is tried. From a closed and empty channel it is the zero
  -- value.
  pub data Received (T : Type ℓ) : Type ℓ where
    got : T → Channel T → Received T
    would_block : Received T

  pub record CancellableChan (T : Type ℓ) : Type ℓ where
    pub handle : Cancellable
    pub ch : Channel T

module _ {ℓ} {T : Type ℓ} where
  unfoldable pub make_chan : ℕ → Channel T
  make_chan size = record { buf = []; cap = size; closed = false }

  -- A send that is tried once, as `select` with a default does; `none` is the panic of a send on a
  -- closed channel. A full channel is left as it is.
  unfoldable pub try_send : Channel T → T → Option (Channel T)
  try_send c v =
      if c.closed
      then none
      else some (if ltb (length c.buf) c.cap then record c { buf = c.buf ++ v ∷ [] } else c)

  receive_from : List T → T → Channel T → Received T
  receive_from [] zero_value c = if c.closed then got zero_value c else would_block
  receive_from (v ∷ rest) zero_value c = got v (record c { buf = rest })

  unfoldable pub receive : T → Channel T → Received T
  unfolding receive_from
  receive zero_value c = receive_from c.buf zero_value c

  -- `close` panics on a channel that is closed.
  unfoldable pub close_chan : Channel T → Option (Channel T)
  close_chan c = if c.closed then none else some (record c { closed = true })

  -- WrapChan; `chanbufsize` is CHANBUFSIZE. The context and the cancel function are both given or
  -- both nil.
  pub wrap_chan :
      ℕ → Option ℕ → Option ℕ → Option (Channel T) → Store → Option (CancellableChan T × Store)
  unfolding make_chan new new_from
  wrap_chan chanbufsize parent cancelfunc ch s =
      let channel : Channel T = elim ch [ none ↦ make_chan chanbufsize | some c ↦ c ] in
      elim parent [
        | none ↦ elim cancelfunc [
          | none ↦ let (c, t) = new none s in some (record { handle = c; ch = channel }, t)
          | some f ↦ none
        ]
        | some p ↦ elim cancelfunc [
          | none ↦ none
          | some f ↦ some (record { handle = new_from p (some f); ch = channel }, s)
        ]
      ]

  pub new_chan_from : ℕ → Option ℕ → Option ℕ → Store → Option (CancellableChan T × Store)
  unfolding wrap_chan
  new_chan_from chanbufsize parent cancelfunc s = wrap_chan chanbufsize parent cancelfunc none s

  unfoldable pub new_chan : ℕ → Option ℕ → Store → Option (CancellableChan T × Store)
  unfolding new_chan_from new
  new_chan chanbufsize parent s =
      let (c, t) = new parent s in new_chan_from chanbufsize (some c.context) c.cancel_func t

  -- What other goroutines send while Updates runs: values that find no room, or a
  -- closed channel, stay with their sender.
  pub arrivals : List T → Channel T → Channel T
  arrivals [] c = c
  arrivals (v ∷ vs) c = arrivals vs (elim (try_send c v) [ none ↦ c | some d ↦ d ])

  -- The loop of Updates from the index i on, where `others n` is sent before the receive with n
  -- rounds left. `none` is a receive that blocks.
  pub updates_loop : T → (ℕ → List T) → ℕ → ℕ → List T → Channel T → Option (List T × Channel T)
  updates_loop zero_value others zero i updates c = some (updates, c)
  updates_loop zero_value others (suc rounds) i updates c =
      elim (receive zero_value (arrivals (others rounds) c)) [
        | would_block ↦ none
        | got u d ↦ updates_loop zero_value others rounds (suc i) (set updates i u) d
      ]

  unfoldable pub updates : T → (ℕ → List T) → Channel T → Option (List T × Channel T)
  updates zero_value others c =
      let l = length c.buf in updates_loop zero_value others l 0 (replicate l zero_value) c

  -- Updates2 returns nil (`none`) when it collected nothing.
  abbrev pub collected : List T → Option (List T)
  collected [] = none
  collected (v ∷ vs) = some (v ∷ vs)

  -- The rounds of the loop of Updates2 are fuel: the outer `none` means that it is still running.
  pub updates2_loop : T → ℕ → List T → Channel T → Option (Option (List T) × Channel T)
  updates2_loop zero_value zero updates c = none
  updates2_loop zero_value (suc rounds) updates c = elim (receive zero_value c) [
    | would_block ↦ some (collected updates, c)
    | got u d ↦ updates2_loop zero_value rounds (updates ++ u ∷ []) d
  ]

  pub updates2 : T → ℕ → Channel T → Option (Option (List T) × Channel T)
  updates2 zero_value rounds c = updates2_loop zero_value rounds [] c
