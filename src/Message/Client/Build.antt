-- ===== src/Message/Client/Build.antt =====
-- The builders of examples/message/client_message_generated.h, and the functions that create its tables.
use cpp_iocplib.Base.{ℕ, List, Option, none, some, ◌^◌, ◌-◌}
use cpp_iocplib.FlatBuffers.{FlatBuffers}
use cpp_iocplib.Message.{TableBuilder, opened}
use cpp_iocplib.Message.Client.Read.{vt_type_type, vt_type, vt_id, vt_password, vt_server_id}

module _ (fb : FlatBuffers) where
  unfoldable pub add_type_type : ℕ → TableBuilder fb → TableBuilder fb
  add_type_type n b = record b { fbb = fb.add_element 1 vt_type_type n 0 b.fbb }

  unfoldable pub add_type : ℕ → TableBuilder fb → TableBuilder fb
  add_type o b = record b { fbb = fb.add_offset vt_type o b.fbb }

  unfoldable pub packet_builder : fb.Builder → TableBuilder fb
  packet_builder fbb = opened fb (fb.start_table fbb)

  unfoldable pub finish_packet : TableBuilder fb → ℕ × fb.Builder
  finish_packet b = fb.finish_table b.start b.fbb

  unfoldable pub create_packet : ℕ → ℕ → fb.Builder → ℕ × fb.Builder
  create_packet e o fbb = finish_packet (add_type_type e (add_type o (packet_builder fbb)))

  unfoldable pub add_id : ℕ → TableBuilder fb → TableBuilder fb
  add_id o b = record b { fbb = fb.add_offset vt_id o b.fbb }

  unfoldable pub add_password : ℕ → TableBuilder fb → TableBuilder fb
  add_password o b = record b { fbb = fb.add_offset vt_password o b.fbb }

  unfoldable pub login_request_builder : fb.Builder → TableBuilder fb
  login_request_builder fbb = opened fb (fb.start_table fbb)

  unfoldable pub finish_login_request : TableBuilder fb → ℕ × fb.Builder
  finish_login_request b = fb.finish_table b.start b.fbb

  unfoldable pub create_login_request : ℕ → ℕ → fb.Builder → ℕ × fb.Builder
  create_login_request id password fbb =
      finish_login_request (add_id id (add_password password (login_request_builder fbb)))

  -- The offset of a string that may be null.
  abbrev pub string_or_null : Option (List ℕ) → fb.Builder → ℕ × fb.Builder
  string_or_null none b = (0, b)
  string_or_null (some s) b = fb.create_string s b

  -- Each string is a `const char*`: its characters before the first NUL.
  unfoldable pub create_login_request_direct :
      Option (List ℕ) → Option (List ℕ) → fb.Builder → ℕ × fb.Builder
  create_login_request_direct id password fbb =
      let (i, b) = string_or_null id fbb in
      let (p, b') = string_or_null password b in create_login_request i p b'

  unfoldable pub add_server_id : ℕ → TableBuilder fb → TableBuilder fb
  add_server_id n b = record b { fbb = fb.add_element 2 vt_server_id n (2 ^ 16 - 1) b.fbb }

  unfoldable pub connect_server_request_builder : fb.Builder → TableBuilder fb
  connect_server_request_builder fbb = opened fb (fb.start_table fbb)

  unfoldable pub finish_connect_server_request : TableBuilder fb → ℕ × fb.Builder
  finish_connect_server_request b = fb.finish_table b.start b.fbb

  unfoldable pub create_connect_server_request : ℕ → fb.Builder → ℕ × fb.Builder
  create_connect_server_request server_id fbb =
      finish_connect_server_request (add_server_id server_id (connect_server_request_builder fbb))

  unfoldable pub logout_request_builder : fb.Builder → TableBuilder fb
  logout_request_builder fbb = opened fb (fb.start_table fbb)

  unfoldable pub finish_logout_request : TableBuilder fb → ℕ × fb.Builder
  finish_logout_request b = fb.finish_table b.start b.fbb

  unfoldable pub create_logout_request : fb.Builder → ℕ × fb.Builder
  create_logout_request fbb = finish_logout_request (logout_request_builder fbb)

  unfoldable pub finish_packet_buffer : ℕ → fb.Builder → fb.Builder
  finish_packet_buffer root fbb = fb.finish root fbb

  -- What each of the senders in examples/client/client_session.cpp does: a new builder, the table,
  -- the packet around it, and the bytes of the finished buffer.
  unfoldable pub packet_bytes : ℕ → (fb.Builder → ℕ × fb.Builder) → List ℕ
  packet_bytes e create =
      let (o, b) = create fb.new_builder in
      let (root, b') = create_packet e o b in fb.buffer (fb.finish root b')
