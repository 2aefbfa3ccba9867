-- ===== src/Message/Server/Built.antt =====
-- A message of examples/message/server_message_generated.h that is built and read.
use cpp_iocplib.Base.{ℕ, List, ◌≡◌, refl, ◌==◌, if◌then◌else◌, length}
use mathlib.Core.Path.{subst}
use cpp_iocplib.FlatBuffers.{FlatBuffers}
use cpp_iocplib.FlatBuffers.Laws.{IsLawful, Fields, table, no_fields, element, link}
use cpp_iocplib.Message.Server.Kinds.{Kind, enum_value}
use cpp_iocplib.Message.Server.Read
use cpp_iocplib.Message.Server.Read.{
  vt_type_type, vt_type, vt_error, type_type, type_, type_as, type_as_login_result,
  type_as_logout_result, type_as_connect_server_result, verify_login_result, verify_logout_result,
  verify_connect_server_result, verify_packet_type, verify_packet, verify_packet_buffer, get_packet,
  error_of_login_result, error_of_connect_server_result,
}
use cpp_iocplib.Message.Server.Build

-- The messages, with the strings and the words in them.
pub data Content : Type 0 where
  login_result : ℕ → Content
  logout_result : Content
  connect_server_result : ℕ → Content

abbrev pub kind_of : Content → Kind
kind_of (Content.login_result error) = Kind.login_result
kind_of Content.logout_result = Kind.logout_result
kind_of (Content.connect_server_result error) = Kind.connect_server_result

abbrev pub fields : Content → Fields
fields (Content.login_result error) =
    if error == 0 then no_fields else element vt_error error no_fields
fields Content.logout_result = no_fields
fields (Content.connect_server_result error) =
    if error == 0 then no_fields else element vt_error error no_fields

module _ (fb : FlatBuffers) where
  -- The function that creates the table of a message.
  abbrev pub create : Content → fb.Builder → ℕ × fb.Builder
  create (Content.login_result error) b = Build.create_login_result fb error b
  create Content.logout_result b = Build.create_logout_result fb b
  create (Content.connect_server_result error) b = Build.create_connect_server_result fb error b

  -- The bytes of a message.
  abbrev pub bytes_of : Content → List ℕ
  bytes_of m = Build.packet_bytes fb (enum_value (kind_of m)) (create m)

  -- What the accessors of a table show of a message.
  abbrev pub Shows : Content → fb.Table → Type 0
  Shows (Content.login_result error) t = Read.error_of_login_result fb t ≡ error
  Shows Content.logout_result t = Unit {0}
  Shows (Content.connect_server_result error) t = Read.error_of_connect_server_result fb t ≡ error

abbrev pub packet_fields : ℕ → Fields → Fields
packet_fields e gs = element vt_type_type e (link vt_type (table gs) no_fields)

module _ (fb : FlatBuffers) (L : IsLawful fb) where
  create_packet-Made :
      (k : Kind) (o : ℕ) (gs : Fields) (b : fb.Builder)
      → L.Made b o (table gs)
      → let (root, b') = Build.create_packet fb (enum_value k) o b in
        L.Made b' root (table (packet_fields (enum_value k) gs))
  unfolding Build.create_packet Build.finish_packet Build.add_type_type Build.add_type
      Build.packet_builder
  create_packet-Made k o gs b m =
      let (s, b') = fb.start_table b in
      let added =
        L.add_offset-Open b' s vt_type o (table gs) no_fields (L.start_table-Open b)
          (L.start_table-Made b o (table gs) m) in
      let b'' = fb.add_offset vt_type o b' in
      let closed =
        L.add_element-Open b'' s 1 vt_type_type (enum_value k) 0 (link vt_type (table gs) no_fields)
          added in
      L.finish_table-Made _ s _ (
        subst (λ fs. L.Open (fb.add_element 1 vt_type_type (enum_value k) 0 b'') s fs) (tag k)
          closed)
    where
      tag :
          (k : Kind)
          → (if enum_value k == 0
              then link vt_type (table gs) no_fields
              else packet_fields (enum_value k) gs)
            ≡ packet_fields (enum_value k) gs
      tag Kind.login_result = refl
      tag Kind.logout_result = refl
      tag Kind.connect_server_result = refl

  create-Made :
      (m : Content) → let (o, b) = create fb m fb.new_builder in L.Made b o (table (fields m))
  unfolding Build.create_login_result Build.finish_login_result Build.login_result_builder
      Build.add_error_of_login_result Build.create_logout_result Build.finish_logout_result
      Build.logout_result_builder Build.create_connect_server_result
      Build.finish_connect_server_result Build.connect_server_result_builder
      Build.add_error_of_connect_server_result
  create-Made (Content.login_result error) =
      L.finish_table-Made _ _ _
        (L.add_element-Open _ _ 4 vt_error error 0 no_fields (L.start_table-Open fb.new_builder))
  create-Made Content.logout_result = L.finish_table-Made _ _ _ (L.start_table-Open fb.new_builder)
  create-Made (Content.connect_server_result error) =
      L.finish_table-Made _ _ _
        (L.add_element-Open _ _ 4 vt_error error 0 no_fields (L.start_table-Open fb.new_builder))

  -- The finished bytes, read at their root.
  pub bytes_of-Reads :
      (m : Content)
      → let bs = bytes_of fb m in
        L.Reads bs (get_packet fb bs) (packet_fields (enum_value (kind_of m)) (fields m))
  unfolding Build.packet_bytes get_packet
  bytes_of-Reads m =
      let (o, b) = create fb m fb.new_builder in
      L.finish-Reads _ _ _ (create_packet-Made (kind_of m) o (fields m) b (create-Made m))

  pub bytes_of-Room :
      (m : Content) → let bs = bytes_of fb m in L.Room bs 2 (fb.verifier bs (length bs))
  unfolding Build.packet_bytes
  bytes_of-Room m =
      let (o, b) = create fb m fb.new_builder in
      L.verifier-Room _ _ _ (create_packet-Made (kind_of m) o (fields m) b (create-Made m))
