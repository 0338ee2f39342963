-- ===== src/Journal/Send.antt =====
-- journalwriter/journal.go: Send with its large messages, isSocketSpaceError, tempFd and initConn.
-- What the operating system answers to each call is an argument.
pub mod Laws
use mostly.Common.{ℕ, List, [], ◌∷◌, ◌++◌, Bool, true, false, Option, none, some}
use mostly.Decimal.{ℤ}
use mostly.Journal.Fields.{message_data}

-- syscall.Errno, as far as the code tells it apart.
pub data Errno : Type 0 where
  emsgsize enobufs : Errno
  other_errno : ℕ → Errno

-- The error inside a net.OpError, and any error of a call: a type assertion tells them apart, and a
-- pointer may be nil.
pub data InnerError : Type 0 where
  syscall_error : Errno → InnerError
  nil_syscall_error : InnerError
  other_inner : ℕ → InnerError

pub data OsError : Type 0 where
  op_error : InnerError → OsError
  nil_op_error : OsError
  other_error : ℕ → OsError

pub data SendError : Type 0 where
  could_not_initialize : SendError
  failed : OsError → SendError

unfoldable pub is_socket_space_error : OsError → Bool
is_socket_space_error (op_error (syscall_error emsgsize)) = true
is_socket_space_error (op_error (syscall_error enobufs)) = true
is_socket_space_error (op_error (syscall_error (other_errno n))) = false
is_socket_space_error (op_error nil_syscall_error) = false
is_socket_space_error (op_error (other_inner n)) = false
is_socket_space_error nil_op_error = false
is_socket_space_error (other_error n) = false

-- The answers to the calls: `none` is success. `connected` is whether the socket pointer is set.
pub record Os : Type 0 where
  pub connected : Bool
  pub datagram : Option OsError
  pub create_temp : Option OsError
  pub unlink : Option OsError
  pub copy : Option OsError
  pub pass_descriptor : Option OsError

-- What is done to the outside, a failed call included only where it leaves something behind. The
-- temporary file starts empty, and its descriptor passes on all that was copied into it.
pub data Effect : Type 0 where
  sent_datagram : List ℕ → Effect
  created_temp unlinked_temp closed_temp : Effect
  copied : List ℕ → Effect
  passed_descriptor : List ℕ → Effect

-- tempFd: whether the file is returned, or the error.
unfoldable pub temp_fd : Os → List Effect × Option OsError
temp_fd os = elim os.create_temp [
  | some e ↦ ([], some e)
  | none ↦ elim os.unlink [
    | some e ↦ (created_temp ∷ [], some e)
    | none ↦ (created_temp ∷ unlinked_temp ∷ [], none)
  ]
]

-- The part of Send behind tempFd; `file.Close()` is deferred.
unfoldable pub send_file : Os → List ℕ → List Effect × Option SendError
send_file os contents = elim os.copy [
  | some e ↦ (closed_temp ∷ [], some (failed e))
  | none ↦ elim os.pass_descriptor [
    | some e ↦ (copied contents ∷ closed_temp ∷ [], some (failed e))
    | none ↦ (copied contents ∷ passed_descriptor contents ∷ closed_temp ∷ [], none)
  ]
]

unfoldable pub send_large : Os → List ℕ → List Effect × Option SendError
unfolding temp_fd send_file
send_large os contents =
    let (es, err) = temp_fd os in
    elim err [
      | some e ↦ (es, some (failed e))
      | none ↦ let (fs, result) = send_file os contents in (es ++ fs, result)
    ]

-- Send: its effects and its error. The bytes of the buffer are read twice, since `data.Bytes()`
-- does not consume them.
unfoldable pub send : Os → List ℕ → ℤ → List (List ℕ × List ℕ) → List Effect × Option SendError
unfolding send_large is_socket_space_error
send os message priority vars =
    let contents = message_data message priority vars in
    elim os.connected [
      | false ↦ ([], some could_not_initialize)
      | true ↦ elim os.datagram [
        | none ↦ (sent_datagram contents ∷ [], none)
        | some e ↦ elim (is_socket_space_error e) [
          | false ↦ ([], some (failed e))
          | true ↦ send_large os contents
        ]
      ]
    ]

-- Print, where `text` is what fmt.Sprintf makes of the format and its arguments.
unfoldable pub print_journal : Os → ℤ → List ℕ → List Effect × Option SendError
unfolding send
print_journal os priority text = send os text priority []

-- initConn: whether the socket pointer is set behind it, from the answers of ResolveUnixAddr and
-- ListenUnixgram.
unfoldable pub init_conn : Bool → Option OsError → Option OsError → Bool
init_conn before resolve listen = elim resolve [
  | some e ↦ before
  | none ↦ elim listen [ some e ↦ before | none ↦ true ]
]

-- Enabled, from whether the pointer is set and the answer of net.Dial.
unfoldable pub enabled : Bool → Option OsError → Bool
enabled connected dial = elim connected [
  | false ↦ false
  | true ↦ elim dial [ some e ↦ false | none ↦ true ]
]
