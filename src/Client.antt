-- ===== src/Client.antt =====
-- The `main` of examples/client/client.cpp.
use cpp_iocplib.Base.{ℕ, Bool, true, false, List, [], ◌∷◌, length, Option, none, some}
use cpp_iocplib.WinSock.{Result, done, throws, Answer, initialize}
use cpp_iocplib.FlatBuffers.{FlatBuffers}
use cpp_iocplib.ClientSocket.{Sending, send_packet}
use cpp_iocplib.ClientSocket.Connection
use cpp_iocplib.ClientSocket.Connection.{Connection}
use cpp_iocplib.ClientSession.{send_login_request}

-- "test_id" and "test_password"
abbrev pub test_id : List ℕ
test_id = 116 ∷ 101 ∷ 115 ∷ 116 ∷ 95 ∷ 105 ∷ 100 ∷ []

abbrev pub test_password : List ℕ
test_password = 116 ∷ 101 ∷ 115 ∷ 116 ∷ 95 ∷ 112 ∷ 97 ∷ 115 ∷ 115 ∷ 119 ∷ 111 ∷ 114 ∷ 100 ∷ []

-- What the system answers to `WSAStartup`, with the version and the last error, and to the calls of
-- `Connect`.
pub record Startup : Type 0 where
  pub result : ℕ
  pub version : ℕ
  pub error : ℕ
  pub made : Answer ℕ
  pub non_blocking : Answer (Unit {0})
  pub connected : Answer (Unit {0})

-- What `main` returns or lets through, and what it leaves; `none` where an assertion fails, or the
-- calls of `Send` are more than the fuel.
abbrev pub Ending : Type 0 → Type 0
Ending W = Option (Result ℕ × Connection × W)

-- The parameters: `send` and `closesocket`, how many calls of `Send` are given, what the I/O thread
-- does with the session while `main` waits for a key, and the session's number.
module _ (fb : FlatBuffers) {W : Type 0} (send : List ℕ → W → Result ℕ × W)
    (closesocket : ℕ → W → Answer (Unit {0}) × W) (fuel : ℕ)
    (pause : Connection × W → Connection × W) (session : ℕ) where
  -- `SendPacket` of a session that has sent before.
  unfoldable pub send_next : List ℕ → Option (Sending W) → Option (Sending W)
  send_next p none = none
  send_next p (some x) = send_packet send fuel p (length p) x.sender x.world

  abbrev pub exit_code : Option Connection × W → Ending W
  exit_code (none, w) = none
  exit_code (some c, w) = some (done 0, c, w)

  abbrev pub close_session : Connection × W → Ending W
  close_session (c, w) = exit_code (Connection.close closesocket session c w)

  -- The part behind the login's request, by the exception that it ends with.
  unfoldable pub after_login : Connection → Option (Sending W) → Ending W
  after_login c none = none
  after_login c (some x) =
      let c' = record c { sender = x.sender } in
      elim x.thrown [
        | some e ↦ some (throws e, c', x.world)
        | none ↦ close_session (pause (c', x.world))
      ]

  -- The part behind `Connect`.
  unfoldable pub after_connect : W → Result Bool × Connection → Ending W
  after_connect w (throws e, c) = some (throws e, c, w)
  after_connect w (done false, c) = some (done 1, c, w)
  after_connect w (done true, c) = after_login c (
      send_login_request fb send_next test_id test_password
        (some (record { sender = c.sender; world = w; thrown = none })))

  unfoldable pub main : Startup → Connection → W → Ending W
  main a c w = elim (initialize a.result a.version a.error) [
    | throws e ↦ some (throws e, c, w)
    | done _ ↦ after_connect w (Connection.connect session a.made a.non_blocking a.connected c)
  ]
