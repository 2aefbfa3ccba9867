-- ===== src/Message/Server/Build.antt =====
-- The builders of examples/message/server_message_generated.h, and the functions that create its tables.
use cpp_iocplib.Base.{ℕ, List}
use cpp_iocplib.FlatBuffers.{FlatBuffers}
use cpp_iocplib.Message.{TableBuilder, opened}
use cpp_iocplib.Message.Server.Read.{vt_type_type, vt_type, vt_error}

module _ (fb : FlatBuffers) where
  unfoldable pub add_type_type : ℕ → TableBuilder fb → TableBuilder fb
  add_type_type n b = record b { fbb = fb.add_element 1 vt_type_type n 0 b.fbb }

  unfoldable pub add_type : ℕ → TableBuilder fb → TableBuilder fb
  add_type o b = record b { fbb = fb.add_offset vt_type o b.fbb }

  unfoldable pub packet_builder : fb.Builder → TableBuilder fb
  packet_builder fbb = opened fb (fb.start_table fbb)

  unfoldable pub finish_packet : TableBuilder fb → ℕ × fb.Builder
  finish_packet b = fb.finish_table b.start b.fbb

  unfoldable pub create_packet : ℕ → ℕ → fb.Builder → ℕ × fb.Builder
  create_packet e o fbb = finish_packet (add_type_type e (add_type o (packet_builder fbb)))

  unfoldable pub add_error_of_login_result : ℕ → TableBuilder fb → TableBuilder fb
  add_error_of_login_result n b = record b { fbb = fb.add_element 4 vt_error n 0 b.fbb }

  unfoldable pub login_result_builder : fb.Builder → TableBuilder fb
  login_result_builder fbb = opened fb (fb.start_table fbb)

  unfoldable pub finish_login_result : TableBuilder fb → ℕ × fb.Builder
  finish_login_result b = fb.finish_table b.start b.fbb

  unfoldable pub create_login_result : ℕ → fb.Builder → ℕ × fb.Builder
  create_login_result error fbb =
      finish_login_result (add_error_of_login_result error (login_result_builder fbb))

  unfoldable pub logout_result_builder : fb.Builder → TableBuilder fb
  logout_result_builder fbb = opened fb (fb.start_table fbb)

  unfoldable pub finish_logout_result : TableBuilder fb → ℕ × fb.Builder
  finish_logout_result b = fb.finish_table b.start b.fbb

  unfoldable pub create_logout_result : fb.Builder → ℕ × fb.Builder
  create_logout_result fbb = finish_logout_result (logout_result_builder fbb)

  unfoldable pub add_error_of_connect_server_result : ℕ → TableBuilder fb → TableBuilder fb
  add_error_of_connect_server_result n b = record b { fbb = fb.add_element 4 vt_error n 0 b.fbb }

  unfoldable pub connect_server_result_builder : fb.Builder → TableBuilder fb
  connect_server_result_builder fbb = opened fb (fb.start_table fbb)

  unfoldable pub finish_connect_server_result : TableBuilder fb → ℕ × fb.Builder
  finish_connect_server_result b = fb.finish_table b.start b.fbb

  unfoldable pub create_connect_server_result : ℕ → fb.Builder → ℕ × fb.Builder
  create_connect_server_result error fbb =
      finish_connect_server_result
        (add_error_of_connect_server_result error (connect_server_result_builder fbb))

  unfoldable pub finish_packet_buffer : ℕ → fb.Builder → fb.Builder
  finish_packet_buffer root fbb = fb.finish root fbb

  -- What each of the senders in examples/server/client_session.cpp does: a new builder, the table,
  -- the packet around it, and the bytes of the finished buffer.
  unfoldable pub packet_bytes : ℕ → (fb.Builder → ℕ × fb.Builder) → List ℕ
  packet_bytes e create =
      let (o, b) = create fb.new_builder in
      let (root, b') = create_packet e o b in fb.buffer (fb.finish root b')
