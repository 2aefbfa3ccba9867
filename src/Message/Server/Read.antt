-- ===== src/Message/Server/Read.antt =====
-- The tables of examples/message/server_message_generated.h: reading and verifying them.
use cpp_iocplib.Base.{
  ℕ, true, false, List, [], ◌∷◌, Option, none, some, ◌==◌, if◌then◌else◌, length,
}
use cpp_iocplib.FlatBuffers.{FlatBuffers}
use cpp_iocplib.Message.{Check, both, test, passes}
use cpp_iocplib.Message.Server.Kinds.{
  Kind, login_result, logout_result, connect_server_result, packet_type_none,
  packet_type_login_result, packet_type_logout_result, packet_type_connect_server_result,
}

abbrev pub vt_type_type : ℕ
vt_type_type = 4

abbrev pub vt_type : ℕ
vt_type = 6

abbrev pub vt_error : ℕ
vt_error = 4

module _ (fb : FlatBuffers) where
  unfoldable pub type_type : fb.Table → ℕ
  type_type t = fb.get_field 1 vt_type_type 0 t

  unfoldable pub type_ : fb.Table → Option fb.Table
  type_ t = fb.get_table vt_type t

  unfoldable pub type_as_login_result : fb.Table → Option fb.Table
  type_as_login_result t = if type_type t == packet_type_login_result then type_ t else none

  unfoldable pub type_as_logout_result : fb.Table → Option fb.Table
  type_as_logout_result t = if type_type t == packet_type_logout_result then type_ t else none

  unfoldable pub type_as_connect_server_result : fb.Table → Option fb.Table
  type_as_connect_server_result t =
      if type_type t == packet_type_connect_server_result then type_ t else none

  -- `type_as` of each table.
  abbrev pub type_as : Kind → fb.Table → Option fb.Table
  type_as login_result = type_as_login_result
  type_as logout_result = type_as_logout_result
  type_as connect_server_result = type_as_connect_server_result

  unfoldable pub error_of_login_result : fb.Table → ℕ
  error_of_login_result t = fb.get_field 4 vt_error 0 t

  unfoldable pub verify_login_result : fb.Table → Check fb
  verify_login_result t =
      both fb (fb.verify_table_start t)
        (both fb (test fb (fb.verify_field 4 vt_error 4 t)) (fb.end_table))

  unfoldable pub verify_logout_result : fb.Table → Check fb
  verify_logout_result t = both fb (fb.verify_table_start t) (fb.end_table)

  unfoldable pub error_of_connect_server_result : fb.Table → ℕ
  error_of_connect_server_result t = fb.get_field 4 vt_error 0 t

  unfoldable pub verify_connect_server_result : fb.Table → Check fb
  verify_connect_server_result t =
      both fb (fb.verify_table_start t)
        (both fb (test fb (fb.verify_field 4 vt_error 4 t)) (fb.end_table))

  unfoldable pub verify_packet_type : Option fb.Table → ℕ → Check fb
  verify_packet_type obj e =
      if e == packet_type_none
      then passes fb
      else if e == packet_type_login_result
      then fb.verify_table verify_login_result obj
      else if e == packet_type_logout_result
      then fb.verify_table verify_logout_result obj
      else if e == packet_type_connect_server_result
      then fb.verify_table verify_connect_server_result obj
      else passes fb

  unfoldable pub verify_packet : fb.Table → Check fb
  verify_packet t = both fb (fb.verify_table_start t) (
      both fb (test fb (fb.verify_field 1 vt_type_type 1 t)) (
        both fb (test fb (fb.verify_offset vt_type t))
          (both fb (verify_packet_type (type_ t) (type_type t)) (fb.end_table))))

  -- The loop of `VerifyPacketTypeVector`.
  unfoldable pub verify_each : List (Option fb.Table) → List ℕ → Check fb
  verify_each [] es = passes fb
  verify_each (x ∷ xs) [] = passes fb
  verify_each (x ∷ xs) (e ∷ es) = both fb (verify_packet_type x e) (verify_each xs es)

  unfoldable pub verify_packet_type_vector :
      Option (List (Option fb.Table)) → Option (List ℕ) → Check fb
  verify_packet_type_vector none none v = (true, v)
  verify_packet_type_vector none (some es) v = (false, v)
  verify_packet_type_vector (some xs) none v = (false, v)
  verify_packet_type_vector (some xs) (some es) v =
      if length xs == length es then verify_each xs es v else (false, v)

  unfoldable pub get_packet : List ℕ → fb.Table
  get_packet buf = fb.get_root buf

  unfoldable pub verify_packet_buffer : Check fb
  verify_packet_buffer v = fb.verify_buffer verify_packet v
