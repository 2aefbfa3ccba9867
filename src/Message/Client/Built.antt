-- ===== src/Message/Client/Built.antt =====
-- A message of examples/message/client_message_generated.h that is built and read.
use cpp_iocplib.Base.{ℕ, List, some, ◌≡◌, refl, ◌==◌, ◌^◌, ◌-◌, if◌then◌else◌, length}
use mathlib.Core.Path.{subst}
use cpp_iocplib.FlatBuffers.{FlatBuffers}
use cpp_iocplib.FlatBuffers.Laws.{IsLawful, Fields, text, table, no_fields, element, link}
use cpp_iocplib.Message.Client.Kinds.{Kind, enum_value}
use cpp_iocplib.Message.Client.Read
use cpp_iocplib.Message.Client.Read.{
  vt_type_type, vt_type, vt_id, vt_password, vt_server_id, type_type, type_, type_as,
  type_as_login_request, type_as_logout_request, type_as_connect_server_request,
  verify_login_request, verify_logout_request, verify_connect_server_request, verify_packet_type,
  verify_packet, verify_packet_buffer, get_packet, id, password, server_id,
}
use cpp_iocplib.Message.Client.Build

-- The messages, with the strings and the words in them.
pub data Content : Type 0 where
  login_request : List ℕ → List ℕ → Content
  connect_server_request : ℕ → Content
  logout_request : Content

abbrev pub kind_of : Content → Kind
kind_of (Content.login_request id password) = Kind.login_request
kind_of (Content.connect_server_request server_id) = Kind.connect_server_request
kind_of Content.logout_request = Kind.logout_request

abbrev pub fields : Content → Fields
fields (Content.login_request id password) =
    link vt_id (text id) (link vt_password (text password) (no_fields))
fields (Content.connect_server_request server_id) =
    if server_id == (2 ^ 16 - 1) then no_fields else element vt_server_id server_id no_fields
fields Content.logout_request = no_fields

module _ (fb : FlatBuffers) where
  -- The function that creates the table of a message.
  abbrev pub create : Content → fb.Builder → ℕ × fb.Builder
  create (Content.login_request id password) b =
      Build.create_login_request_direct fb (some id) (some password) b
  create (Content.connect_server_request server_id) b =
      Build.create_connect_server_request fb server_id b
  create Content.logout_request b = Build.create_logout_request fb b

  -- The bytes of a message.
  abbrev pub bytes_of : Content → List ℕ
  bytes_of m = Build.packet_bytes fb (enum_value (kind_of m)) (create m)

  -- What the accessors of a table show of a message.
  abbrev pub Shows : Content → fb.Table → Type 0
  Shows (Content.login_request id password) t =
      ((x : fb.Text) × (Read.id fb t ≡ some x) × (fb.c_str x ≡ id))
      × ((x : fb.Text) × (Read.password fb t ≡ some x) × (fb.c_str x ≡ password))
  Shows (Content.connect_server_request server_id) t = Read.server_id fb t ≡ server_id
  Shows Content.logout_request t = Unit {0}

abbrev pub packet_fields : ℕ → Fields → Fields
packet_fields e gs = element vt_type_type e (link vt_type (table gs) no_fields)

module _ (fb : FlatBuffers) (L : IsLawful fb) where
  create_packet-Made :
      (k : Kind) (o : ℕ) (gs : Fields) (b : fb.Builder)
      → L.Made b o (table gs)
      → let (root, b') = Build.create_packet fb (enum_value k) o b in
        L.Made b' root (table (packet_fields (enum_value k) gs))
  unfolding Build.create_packet Build.finish_packet Build.add_type_type Build.add_type
      Build.packet_builder
  create_packet-Made k o gs b m =
      let (s, b') = fb.start_table b in
      let added =
        L.add_offset-Open b' s vt_type o (table gs) no_fields (L.start_table-Open b)
          (L.start_table-Made b o (table gs) m) in
      let b'' = fb.add_offset vt_type o b' in
      let closed =
        L.add_element-Open b'' s 1 vt_type_type (enum_value k) 0 (link vt_type (table gs) no_fields)
          added in
      L.finish_table-Made _ s _ (
        subst (λ fs. L.Open (fb.add_element 1 vt_type_type (enum_value k) 0 b'') s fs) (tag k)
          closed)
    where
      tag :
          (k : Kind)
          → (if enum_value k == 0
              then link vt_type (table gs) no_fields
              else packet_fields (enum_value k) gs)
            ≡ packet_fields (enum_value k) gs
      tag Kind.login_request = refl
      tag Kind.logout_request = refl
      tag Kind.connect_server_request = refl

  create-Made :
      (m : Content) → let (o, b) = create fb m fb.new_builder in L.Made b o (table (fields m))
  unfolding Build.create_login_request Build.finish_login_request Build.login_request_builder
      Build.create_login_request_direct Build.add_id Build.add_password
      Build.create_connect_server_request Build.finish_connect_server_request
      Build.connect_server_request_builder Build.add_server_id Build.create_logout_request
      Build.finish_logout_request Build.logout_request_builder
  create-Made (Content.login_request id password) =
      let (i, b) = fb.create_string id fb.new_builder in
      let (p, b1) = fb.create_string password b in
      let (s, b2) = fb.start_table b1 in
      let id_made =
        L.start_table-Made b1 i (text id)
          (L.create_string-Made b password i (text id) (L.create_string-text fb.new_builder id)) in
      let password_made =
        L.start_table-Made b1 p (text password) (L.create_string-text b password) in
      let one =
        L.add_offset-Open b2 s vt_password p (text password) no_fields (L.start_table-Open b1)
          password_made in
      L.finish_table-Made _ s _ (
        L.add_offset-Open _ s vt_id i (text id) _ one
          (L.add_offset-Made b2 vt_password i p (text id) id_made))
  create-Made (Content.connect_server_request server_id) = L.finish_table-Made _ _ _ (
      L.add_element-Open _ _ 2 vt_server_id server_id (2 ^ 16 - 1) no_fields
        (L.start_table-Open fb.new_builder))
  create-Made Content.logout_request = L.finish_table-Made _ _ _ (L.start_table-Open fb.new_builder)

  -- The finished bytes, read at their root.
  pub bytes_of-Reads :
      (m : Content)
      → let bs = bytes_of fb m in
        L.Reads bs (get_packet fb bs) (packet_fields (enum_value (kind_of m)) (fields m))
  unfolding Build.packet_bytes get_packet
  bytes_of-Reads m =
      let (o, b) = create fb m fb.new_builder in
      L.finish-Reads _ _ _ (create_packet-Made (kind_of m) o (fields m) b (create-Made m))

  pub bytes_of-Room :
      (m : Content) → let bs = bytes_of fb m in L.Room bs 2 (fb.verifier bs (length bs))
  unfolding Build.packet_bytes
  bytes_of-Room m =
      let (o, b) = create fb m fb.new_builder in
      L.verifier-Room _ _ _ (create_packet-Made (kind_of m) o (fields m) b (create-Made m))
