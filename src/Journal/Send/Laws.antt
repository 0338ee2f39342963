-- ===== src/Journal/Send/Laws.antt =====
-- What reaches the journal, and what is left behind.
use mostly.Common.{
  ℕ, ◌+◌, ◌-◌, ◌≤◌, ◌≡◌, ◌≢◌, ◌↔◌, List, [], ◌∷◌, Bool, true, false, none, some, arith,
}
use mostly.Decimal.{ℤ}
use mostly.Journal.Fields.{message_data}
use mostly.Journal.Send.{
  is_socket_space_error, Os, Effect, sent_datagram, created_temp, unlinked_temp, closed_temp,
  copied, passed_descriptor, send,
}

-- What a reader of the socket gets.
abbrev pub delivered : List Effect → List (List ℕ)
delivered [] = []
delivered (sent_datagram b ∷ es) = b ∷ delivered es
delivered (passed_descriptor b ∷ es) = b ∷ delivered es
delivered (created_temp ∷ es) = delivered es
delivered (unlinked_temp ∷ es) = delivered es
delivered (closed_temp ∷ es) = delivered es
delivered (copied b ∷ es) = delivered es

-- Files that were created and are not closed, with `n` open before.
abbrev pub open_after : ℕ → List Effect → ℕ
open_after n [] = n
open_after n (created_temp ∷ es) = open_after (n + 1) es
open_after n (closed_temp ∷ es) = open_after (n - 1) es
open_after n (sent_datagram b ∷ es) = open_after n es
open_after n (passed_descriptor b ∷ es) = open_after n es
open_after n (unlinked_temp ∷ es) = open_after n es
open_after n (copied b ∷ es) = open_after n es

-- Send reports success exactly if the journal got the message's data, once and whole, be it in a
-- datagram or through the descriptor of a file; where it reports an error, nothing was delivered.
pub send_delivers :
    (os : Os) (message : List ℕ) (priority : ℤ) (vars : List (List ℕ × List ℕ))
    → let (es, err) = send os message priority vars in
      ((err ≡ none) ↔ (delivered es ≡ message_data message priority vars ∷ []))
      × ((err ≢ none) ↔ (delivered es ≡ []))
unfolding send
send_delivers os message priority vars = ground arith

-- Whether Send comes to the temporary file: the socket is set and refuses the datagram for its size.
abbrev pub too_large : Os → Bool
too_large os = elim os.connected [
  | false ↦ false
  | true ↦ elim os.datagram [ none ↦ false | some e ↦ is_socket_space_error e ]
]

-- Send leaves a file open exactly if a message is too large, its temporary file is created, and that
-- file cannot be unlinked: tempFd then returns the error without closing it. Otherwise every file
-- that Send has created is closed.
pub send_leaves_open :
    (os : Os) (message : List ℕ) (priority : ℤ) (vars : List (List ℕ × List ℕ))
    → let es = (send os message priority vars).0 in
      ((open_after 0 es ≡ 1)
        ↔ ((too_large os ≡ true) × (os.create_temp ≡ none) × (os.unlink ≢ none)))
      × (open_after 0 es ≤ 1)
unfolding send
send_leaves_open os message priority vars = ground arith
