-- ===== src/Message/Server/Laws.antt =====
-- What is built as a message of examples/message/server_message_generated.h passes its
-- check, and reads as that message.
use cpp_iocplib.Base.{
  ℕ, suc, Bool, true, false, List, none, some, ◌≡◌, refl, sym, ap, ◌∙◌, ◌==◌, if◌then◌else◌, length,
  arith,
}
use mathlib.Core.Path.{subst}
use cpp_iocplib.FlatBuffers.{FlatBuffers}
use cpp_iocplib.FlatBuffers.Laws.{IsLawful, Fields, no_fields, element, field_of}
use cpp_iocplib.Message.Passes.{Passes, both-Passes, test-Passes, Passes-cong}
use cpp_iocplib.Message.Server.Kinds.{Kind, enum_value}
use cpp_iocplib.Message.Server.Read
use cpp_iocplib.Message.Server.Read.{
  vt_type_type, vt_type, vt_error, type_type, type_, type_as, verify_login_result,
  verify_logout_result, verify_connect_server_result, verify_packet_type, verify_packet,
  verify_packet_buffer, get_packet,
}
use cpp_iocplib.Message.Server.Built.{
  Content, kind_of, fields, bytes_of, Shows, packet_fields, bytes_of-Reads, bytes_of-Room,
}

-- A field is left out where it has its default.
field_of-element :
    (place n missing : ℕ)
    → field_of place missing (if n == missing then no_fields else element place n no_fields) ≡ n
field_of-element place n missing = by_test (n == missing) refl
  where
    by_test :
        (b : Bool)
        → n == missing ≡ b
        → field_of place missing (if b then no_fields else element place n no_fields) ≡ n
    by_test true e = ground arith
    by_test false e = ground arith

module _ (fb : FlatBuffers) (L : IsLawful fb) (bs : List ℕ) where
  verify_login_result-Passes :
      (t : fb.Table) (gs : Fields) (depth : ℕ)
      → L.Reads bs t gs
      → Passes fb L bs (suc depth) depth (verify_login_result fb t)
  unfolding verify_login_result
  verify_login_result-Passes t gs depth h =
      both-Passes fb L bs (suc depth) depth depth _ _
        (λ v r. L.verify_table_start-Room bs t _ depth v h r)
        (both-Passes fb L bs depth depth depth _ _
          (test-Passes fb L bs depth _
            (λ v r. L.verify_field-Reads bs t gs 4 vt_error 4 depth v h r))
          (λ v r. L.end_table-Room bs depth v r))

  verify_logout_result-Passes :
      (t : fb.Table) (gs : Fields) (depth : ℕ)
      → L.Reads bs t gs
      → Passes fb L bs (suc depth) depth (verify_logout_result fb t)
  unfolding verify_logout_result
  verify_logout_result-Passes t gs depth h =
      both-Passes fb L bs (suc depth) depth depth _ _
        (λ v r. L.verify_table_start-Room bs t _ depth v h r) (λ v r. L.end_table-Room bs depth v r)

  verify_connect_server_result-Passes :
      (t : fb.Table) (gs : Fields) (depth : ℕ)
      → L.Reads bs t gs
      → Passes fb L bs (suc depth) depth (verify_connect_server_result fb t)
  unfolding verify_connect_server_result
  verify_connect_server_result-Passes t gs depth h =
      both-Passes fb L bs (suc depth) depth depth _ _
        (λ v r. L.verify_table_start-Room bs t _ depth v h r)
        (both-Passes fb L bs depth depth depth _ _
          (test-Passes fb L bs depth _
            (λ v r. L.verify_field-Reads bs t gs 4 vt_error 4 depth v h r))
          (λ v r. L.end_table-Room bs depth v r))

  verify_packet_type-Passes :
      (m : Content) (t : fb.Table) (depth : ℕ)
      → L.Reads bs t (fields m)
      → Passes fb L bs (suc depth) depth (verify_packet_type fb (some t) (enum_value (kind_of m)))
  unfolding verify_packet_type
  verify_packet_type-Passes (Content.login_result error) t depth h =
      Passes-cong fb L bs (suc depth) depth _ _
        (λ v. L.verify_table-some (verify_login_result fb) t v)
        (verify_login_result-Passes t _ depth h)
  verify_packet_type-Passes Content.logout_result t depth h =
      Passes-cong fb L bs (suc depth) depth _ _
        (λ v. L.verify_table-some (verify_logout_result fb) t v)
        (verify_logout_result-Passes t _ depth h)
  verify_packet_type-Passes (Content.connect_server_result error) t depth h =
      Passes-cong fb L bs (suc depth) depth _ _
        (λ v. L.verify_table-some (verify_connect_server_result fb) t v)
        (verify_connect_server_result-Passes t _ depth h)

  -- What the root of a packet shows: its type, and the table in it.
  packet-parts :
      (m : Content) (p : fb.Table)
      → L.Reads bs p (packet_fields (enum_value (kind_of m)) (fields m))
      → (type_type fb p ≡ enum_value (kind_of m))
        × (t : fb.Table) × (type_ fb p ≡ some t)
        × L.Reads bs t (fields m)
  unfolding type_type type_
  packet-parts m p h =
      let (t, linked, reads) = L.get_table-Reads bs p _ (fields m) vt_type h refl in
      (L.get_field-Reads bs p _ 1 vt_type_type 0 h, t, linked, reads)

  -- A packet passes if what it holds does.
  pub verify_packet-inner :
      (p : fb.Table) (fs : Fields) (after : ℕ)
      → L.Reads bs p fs
      → Passes fb L bs 1 after (verify_packet_type fb (type_ fb p) (type_type fb p))
      → Passes fb L bs 2 after (verify_packet fb p)
  unfolding verify_packet
  verify_packet-inner p fs after h inner =
      both-Passes fb L bs 2 1 after _ _ (λ v r. L.verify_table_start-Room bs p _ 1 v h r)
        (both-Passes fb L bs 1 1 after _ _
          (test-Passes fb L bs 1 _ (λ v r. L.verify_field-Reads bs p _ 1 vt_type_type 1 1 v h r))
          (both-Passes fb L bs 1 1 after _ _
            (test-Passes fb L bs 1 _ (λ v r. L.verify_offset-Reads bs p _ vt_type 1 v h r))
            (both-Passes fb L bs 1 after after _ _ inner (λ v r. L.end_table-Room bs after v r))))

  verify_packet-Passes :
      (m : Content) (p : fb.Table)
      → L.Reads bs p (packet_fields (enum_value (kind_of m)) (fields m))
      → Passes fb L bs 2 0 (verify_packet fb p)
  verify_packet-Passes m p h =
      let (tagged, t, linked, reads) = packet-parts m p h in
      verify_packet-inner p _ 0 h (
        subst (λ e. Passes fb L bs 1 0 (verify_packet_type fb (type_ fb p) e)) (sym tagged)
          (subst (λ o. Passes fb L bs 1 0 (verify_packet_type fb o (enum_value (kind_of m))))
            (sym linked) (verify_packet_type-Passes m t 0 reads)))

  type_as-kind :
      (k : Kind) (p : fb.Table) → type_type fb p ≡ enum_value k → type_as fb k p ≡ type_ fb p
  unfolding Read.type_as_login_result Read.type_as_logout_result Read.type_as_connect_server_result
  type_as-kind Kind.login_result p e = ap (λ n. if n == 1 then type_ fb p else none) e
  type_as-kind Kind.logout_result p e = ap (λ n. if n == 2 then type_ fb p else none) e
  type_as-kind Kind.connect_server_result p e = ap (λ n. if n == 3 then type_ fb p else none) e

  fields-Shows : (m : Content) (t : fb.Table) → L.Reads bs t (fields m) → Shows fb m t
  unfolding Read.error_of_login_result Read.error_of_connect_server_result
  fields-Shows (Content.login_result error) t h =
      L.get_field-Reads bs t _ 4 vt_error 0 h ∙ field_of-element vt_error error 0
  fields-Shows Content.logout_result t h = tt
  fields-Shows (Content.connect_server_result error) t h =
      L.get_field-Reads bs t _ 4 vt_error 0 h ∙ field_of-element vt_error error 0

module _ (fb : FlatBuffers) (L : IsLawful fb) where
  -- The bytes that a message is built into, the library working as documented, pass the check of a
  -- received packet, and read back as that message: its type, its table under that type, and
  -- everything in the table.
  pub read_server_message :
      (m : Content)
      → let bs = bytes_of fb m in
        let p = get_packet fb bs in
        ((verify_packet_buffer fb (fb.verifier bs (length bs))).0 ≡ true)
        × (type_type fb p ≡ enum_value (kind_of m))
        × (t : fb.Table) × (type_as fb (kind_of m) p ≡ some t)
        × Shows fb m t
  unfolding verify_packet_buffer get_packet
  read_server_message m =
      let bs = bytes_of fb m in
      let root = bytes_of-Reads fb L m in
      let room = bytes_of-Room fb L m in
      let v = fb.verifier bs (length bs) in
      let (tagged, t, linked, reads) = packet-parts fb L bs m (fb.get_root bs) root in
      let passes = (verify_packet-Passes fb L bs m (fb.get_root bs) root v room).0 in
      (
        ap (λ out. out.0) (L.verify_buffer-root bs _ (verify_packet fb) 2 v root room) ∙ passes,
        tagged,
        t,
        type_as-kind fb L bs (kind_of m) (fb.get_root bs) tagged ∙ linked,
        fields-Shows fb L bs m t reads,
      )
