-- ===== src/ClientSession.antt =====
-- examples/client/client_session.cpp: what the client sends, and how it takes what the server sends.
-- `send_packet` is what `SendPacket` of the bytes and the size of a buffer does to the session's state.
-- `none` stands where a null pointer is dereferenced; what is printed is left out.
pub mod Exchange
use cpp_iocplib.Base.{ℕ, Bool, List, [], ◌∷◌, Option, none, some, ◌==◌, if◌then◌else◌, length}
use cpp_iocplib.FlatBuffers.{FlatBuffers}
use cpp_iocplib.Message.Server.Kinds.{
  packet_type_login_result, packet_type_logout_result, packet_type_connect_server_result,
}
use cpp_iocplib.Message.Server.Read.{
  type_type, type_as_login_result, type_as_logout_result, type_as_connect_server_result,
  error_of_login_result, get_packet, verify_packet_buffer,
}
use cpp_iocplib.Message.Client.Kinds.{
  packet_type_login_request, packet_type_logout_request, packet_type_connect_server_request,
}
use cpp_iocplib.Message.Client.Build.{
  create_login_request_direct, create_logout_request, create_connect_server_request, packet_bytes,
}

-- The `c_str` of a string, as what takes a `const char*` reads it: up to the first NUL.
unfoldable pub until_nul : List ℕ → List ℕ
until_nul [] = []
until_nul (c ∷ cs) = let rest = until_nul cs in if c == 0 then [] else c ∷ rest

module _ (fb : FlatBuffers) {S : Type 0} (send_packet : List ℕ → S → S) where
  unfoldable pub send_login_request : List ℕ → List ℕ → S → S
  send_login_request id password s =
      send_packet
        (packet_bytes fb packet_type_login_request
          (create_login_request_direct fb (some (until_nul id)) (some (until_nul password))))
        s

  -- `ConnectServerRequest`, of a server's number as a word.
  unfoldable pub connect_server_request : ℕ → S → S
  connect_server_request server_id s =
      send_packet
        (packet_bytes fb packet_type_connect_server_request
          (create_connect_server_request fb server_id))
        s

  unfoldable pub send_logout_request : S → S
  send_logout_request s =
      send_packet (packet_bytes fb packet_type_logout_request (create_logout_request fb)) s

  -- The handlers of the server's messages.
  unfoldable pub login_result : Option fb.Table → S → Option S
  login_result none s = none
  login_result (some result) s =
      some (if error_of_login_result fb result == 0 then connect_server_request 1 s else s)

  unfoldable pub connect_server_result : Option fb.Table → S → Option S
  connect_server_result none s = none
  connect_server_result (some result) s = some (send_logout_request s)

  unfoldable pub logout_result : Option fb.Table → S → Option S
  logout_result result s = some s

  -- The `switch` of `OnPacket`.
  unfoldable pub handle_packet : fb.Table → S → Option S
  handle_packet p s =
      if type_type fb p == packet_type_login_result
      then login_result (type_as_login_result fb p) s
      else if type_type fb p == packet_type_connect_server_result
      then connect_server_result (type_as_connect_server_result fb p) s
      else if type_type fb p == packet_type_logout_result
      then logout_result (type_as_logout_result fb p) s
      else some s

  unfoldable pub on_packet : List ℕ → S → Option S
  on_packet buffer s =
      if (verify_packet_buffer fb (fb.verifier buffer (length buffer))).0
      then handle_packet (get_packet fb buffer) s
      else some s
