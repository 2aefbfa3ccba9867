-- ===== src/ServerSession/Handlers.antt =====
-- `OnPacket` and the three handlers of examples/server/client_session.cpp. `send_async` is what
-- `SendAsync` of the bytes and the size of a buffer does to the session's state. `none` stands where a
-- null pointer is dereferenced. What is printed is left out, but not what is dereferenced for it.
use cpp_iocplib.Base.{ℕ, Bool, List, Option, none, some, ◌==◌, if◌then◌else◌, length}
use cpp_iocplib.FlatBuffers.{FlatBuffers}
use cpp_iocplib.Message.Client.Kinds.{
  packet_type_login_request, packet_type_logout_request, packet_type_connect_server_request,
}
use cpp_iocplib.Message.Client.Read.{
  type_type, type_as_login_request, type_as_logout_request, type_as_connect_server_request, id,
  password, get_packet, verify_packet_buffer,
}
use cpp_iocplib.Message.Server.Kinds.{
  packet_type_login_result, packet_type_logout_result, packet_type_connect_server_result,
}
use cpp_iocplib.Message.Server.Build.{
  create_login_result, create_logout_result, create_connect_server_result, packet_bytes,
}

-- The check of a complete packet in `OnReceivePacket`, by its payload.
unfoldable pub verify_payload : FlatBuffers → List ℕ → Bool
verify_payload fb p = (verify_packet_buffer fb (fb.verifier p (length p))).0

module _ (fb : FlatBuffers) {S : Type 0} (send_async : List ℕ → S → S) where
  -- The strings' pointers are dereferenced one after the other, then the answer is sent.
  unfoldable pub login_with : Option fb.Text → Option fb.Text → S → Option S
  login_with none p s = none
  login_with (some i) none s = none
  login_with (some i) (some p) s =
      some (send_async (packet_bytes fb packet_type_login_result (create_login_result fb 0)) s)

  unfoldable pub login_request : Option fb.Table → S → Option S
  login_request none s = none
  login_request (some request) s = login_with (id fb request) (password fb request) s

  -- Its argument is not dereferenced.
  unfoldable pub logout_request : Option fb.Table → S → Option S
  logout_request request s =
      some (send_async (packet_bytes fb packet_type_logout_result (create_logout_result fb)) s)

  unfoldable pub connect_server_request : Option fb.Table → S → Option S
  connect_server_request none s = none
  connect_server_request (some request) s = some (
      send_async
        (packet_bytes fb packet_type_connect_server_result (create_connect_server_result fb 0)) s)

  unfoldable pub on_packet : fb.Table → S → Option S
  on_packet p s =
      if type_type fb p == packet_type_login_request
      then login_request (type_as_login_request fb p) s
      else if type_type fb p == packet_type_connect_server_request
      then connect_server_request (type_as_connect_server_request fb p) s
      else if type_type fb p == packet_type_logout_request
      then logout_request (type_as_logout_request fb p) s
      else some s

  -- The handling of a complete packet in `OnReceivePacket`, by its payload. A session that has
  -- dereferenced a null pointer does nothing more.
  unfoldable pub handle_payload : List ℕ → Option S → Option S
  handle_payload p none = none
  handle_payload p (some s) = on_packet (get_packet fb p) s
