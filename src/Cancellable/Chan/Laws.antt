-- ===== src/Cancellable/Chan/Laws.antt =====
-- Draining a channel by Updates and by Updates2.
use mostly.Common.{
  ℕ, zero, suc, ◌<◌, ◌≡◌, refl, sym, ap, ◌∙◌, List, [], ◌∷◌, ◌++◌, true, false, none, some, arith,
  append_assoc, append-nil, length, length-append, set, replicate, set-append_length, ltb,
  Bool-cases, List-cases, not, ◌||◌, inl, inr,
}
use mostly.Cancellable.Chan.{
  Channel, got, receive, arrivals, updates_loop, updates, collected, updates2_loop, updates2,
  close_chan, try_send,
}

module _ {ℓ} {T : Type ℓ} (zero_value : T) where
  -- Sends only lengthen the buffer, and keep the rest of the channel.
  arrivals-append :
      (vs : List T) (c : Channel T)
      → (late : List T) × (arrivals vs c ≡ record c { buf = c.buf ++ late })
  unfolding arrivals try_send
  arrivals-append [] c = ([], ground (arith, append-nil c.buf))
  arrivals-append (v ∷ vs) c = elim (Bool-cases (c.closed || not (ltb (length c.buf) c.cap))) [
    | inl kept ↦ let (late, e) = arrivals-append vs c in (late, ground arith)
    | inr sent ↦
        let (late, e) = arrivals-append vs (record c { buf = c.buf ++ v ∷ [] }) in
        (v ∷ late, ground (arith, append_assoc c.buf (v ∷ []) late))
  ]

  receive_first :
      (c : Channel T) (v : T) (rest : List T)
      → c.buf ≡ v ∷ rest
      → receive zero_value c ≡ got v (record c { buf = rest })
  unfolding receive
  receive_first c v rest e = ground arith

  updates_loop_step :
      (others : ℕ → List T) (rounds i : ℕ) (ups : List T) (c : Channel T) {u : T} {d : Channel T}
      → receive zero_value (arrivals (others rounds) c) ≡ got u d
      → updates_loop zero_value others (suc rounds) i ups c
        ≡ updates_loop zero_value others rounds (suc i) (set ups i u) d
  unfolding updates_loop
  updates_loop_step others rounds i ups c h = rw (h, updates_loop)

  -- `done` is filled, `todo` was buffered when the loop began, and `late` came in since.
  updates_loop_lem :
      (others : ℕ → List T) (todo done : List T) (c : Channel T) (late : List T)
      → c.buf ≡ todo ++ late
      → (later : List T) × (updates_loop zero_value others
            (length todo)
            (length done)
            (done ++ replicate (length todo) zero_value)
            c
          ≡ some (done ++ todo, record c { buf = late ++ later }))
  unfolding updates_loop
  updates_loop_lem others [] done c late e = ([], ground (arith, append-nil late))
  updates_loop_lem others (v ∷ todo) done c late e =
      let (more, e1) = arrivals-append (others (length todo)) c in
      let e2 =
        receive_first (record c { buf = c.buf ++ more }) v (todo ++ (late ++ more))
          (ground (arith, append_assoc todo late more)) in
      let (later, ih) =
        updates_loop_lem others todo (done ++ v ∷ []) (record c { buf = todo ++ (late ++ more) })
          (late ++ more) refl in
      let step =
        updates_loop_step others (length todo) (length done)
          (done ++ replicate (suc (length todo)) zero_value) c (ap (receive zero_value) e1 ∙ e2) in
      (
        more ++ later,
        ground (
          arith,
          step,
          ih,
          append_assoc late more later,
          set-append_length done zero_value v (replicate (length todo) zero_value),
          append_assoc done (v ∷ []) (replicate (length todo) zero_value),
          append_assoc done (v ∷ []) todo,
          length-append done (v ∷ []),
        ),
      )

  -- Updates returns exactly what was buffered when it was called, oldest first, and never blocks,
  -- whatever other goroutines send meanwhile; what they sent is left in the channel.
  pub updates_lem :
      (others : ℕ → List T) (c : Channel T)
      → (later : List T) × (updates zero_value others c ≡ some (c.buf, record c { buf = later }))
  unfolding updates
  updates_lem others c = updates_loop_lem others c.buf [] c [] (sym (append-nil c.buf))

  updates_loop_quiet :
      (todo done : List T) (c : Channel T)
      → c.buf ≡ todo
      → updates_loop zero_value
          (λ _. [])
          (length todo)
          (length done)
          (done ++ replicate (length todo) zero_value)
          c
        ≡ some (done ++ todo, record c { buf = [] })
  unfolding updates_loop arrivals
  updates_loop_quiet [] done c e = ground (arith, append-nil done)
  updates_loop_quiet (v ∷ todo) done c e = ground (
    arith,
    receive_first c v todo e,
    updates_loop_quiet todo (done ++ v ∷ []) (record c { buf = todo }) refl,
    set-append_length done zero_value v (replicate (length todo) zero_value),
    append_assoc done (v ∷ []) (replicate (length todo) zero_value),
    append_assoc done (v ∷ []) todo,
    length-append done (v ∷ []),
  )

  updates2_loop_open :
      (buf : List T) (c : Channel T) (out : List T) (rounds : ℕ)
      → c.buf ≡ buf
      → c.closed ≡ false
      → length buf < rounds
      → updates2_loop zero_value rounds out c ≡ some (collected (out ++ buf), record c { buf = [] })
  unfolding updates2_loop receive
  updates2_loop_open buf c out zero e o h = absurd (omega arith)
  updates2_loop_open [] c out (suc rounds) e o h = ground (arith, append-nil out)
  updates2_loop_open (v ∷ buf) c out (suc rounds) e o h = ground (
    arith,
    updates2_loop_open buf (record c { buf = buf }) (out ++ v ∷ []) rounds refl o,
    append_assoc out (v ∷ []) buf,
  )

  -- On an open channel on which nobody sends, Updates2 ends after one round more than there are
  -- buffered values. It returns what Updates returns, except that it returns nil for no value, and
  -- both leave the channel empty.
  pub updates2-updates :
      (c : Channel T) (rounds : ℕ)
      → c.closed ≡ false
      → length c.buf < rounds
      → (updates2 zero_value rounds c ≡ some (collected c.buf, record c { buf = [] }))
        × (updates zero_value (λ _. []) c ≡ some (c.buf, record c { buf = [] }))
  unfolding updates2 updates
  updates2-updates c rounds o h =
      (updates2_loop_open c.buf c [] rounds refl o h, updates_loop_quiet c.buf [] c refl)

  receive_closed :
      (c : Channel T)
      → c.closed ≡ true
      → (u : T) × (d : Channel T) × (receive zero_value c ≡ got u d) × (d.closed ≡ true)
  unfolding receive
  receive_closed c h = elim (List-cases c.buf) [
    | inl e ↦ (zero_value, c, ground arith, h)
    | inr (v, rest, e) ↦ (v, record c { buf = rest }, receive_first c v rest e, h)
  ]

  updates2_loop_closed :
      (rounds : ℕ) (c : Channel T) (out : List T)
      → c.closed ≡ true
      → updates2_loop zero_value rounds out c ≡ none
  unfolding updates2_loop
  updates2_loop_closed zero c out h = refl
  updates2_loop_closed (suc rounds) c out h =
      let (u, d, e, k) = receive_closed c h in
      rw (e, updates2_loop) (updates2_loop_closed rounds d (out ++ u ∷ []) k)

  -- On a channel that CloseChan has closed, Updates2 never returns, however many rounds it runs:
  -- a receive from a closed channel is always ready, so its `default` is never taken.
  pub updates2_closed :
      (c d : Channel T) (rounds : ℕ) → close_chan c ≡ some d → updates2 zero_value rounds d ≡ none
  unfolding updates2 close_chan
  updates2_closed c d rounds h = updates2_loop_closed rounds d [] (ground arith)

  -- A receive does not close or open a channel.
  pub closed-receive :
      (c : Channel T) {u : T} {d : Channel T} → receive zero_value c ≡ got u d → d.closed ≡ c.closed
  unfolding receive
  closed-receive c h = elim (List-cases c.buf) [
    | inl e ↦ ground arith
    | inr (v, rest, e) ↦ ground (arith, receive_first c v rest e)
  ]
