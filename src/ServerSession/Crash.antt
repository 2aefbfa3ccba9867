-- ===== src/ServerSession/Crash.antt =====
-- Packets that pass the check of `OnReceivePacket` and leave a handler without what it dereferences.
use cpp_iocplib.Base.{
  ℕ, true, List, [], ◌∷◌, Option, none, some, ◌≡◌, refl, ap, ◌∙◌, length, suc, append-nil,
}
use cpp_iocplib.FlatBuffers.{FlatBuffers}
use cpp_iocplib.FlatBuffers.Laws.{IsLawful, Fields, no_fields, element}
use cpp_iocplib.Packet.Frame.{frame, IsSendable}
use cpp_iocplib.Message.Passes.{Passes, both-Passes, test-Passes, Passes-cong}
use cpp_iocplib.Message.Client.Kinds.{packet_type_login_request, packet_type_connect_server_request}
use cpp_iocplib.Message.Client.Read
use cpp_iocplib.Message.Client.Read.{
  get_packet, type_type, type_, id, password, type_as_login_request, type_as_connect_server_request,
  verify_packet, verify_packet_type, verify_packet_buffer, verify_login_request,
  verify_connect_server_request, vt_type_type, vt_type, vt_id, vt_password,
}
use cpp_iocplib.Message.Client.Built.{packet_fields}
use cpp_iocplib.Message.Client.Laws.{verify_packet-inner}
use cpp_iocplib.ServerSession.{ClientSession}
use cpp_iocplib.ServerSession.Rounds.{Holds}
use cpp_iocplib.ServerSession.Stream.{receive_chunks, receive_chunks_stream}
use cpp_iocplib.ServerSession.Handlers.{
  login_with, login_request, connect_server_request, on_packet, verify_payload, handle_payload,
}

-- A packet of a type without a table, or a login whose table has neither string.
pub data IsIncomplete : Fields → Type 0 where
  login_alone : IsIncomplete (element vt_type_type packet_type_login_request no_fields)
  connect_alone : IsIncomplete (element vt_type_type packet_type_connect_server_request no_fields)
  login_empty : IsIncomplete (packet_fields packet_type_login_request no_fields)

module _ (fb : FlatBuffers) (L : IsLawful fb) (bs : List ℕ) where
  verify_login_request-empty :
      (t : fb.Table) (depth : ℕ)
      → L.Reads bs t no_fields
      → Passes fb L bs (suc depth) depth (verify_login_request fb t)
  unfolding verify_login_request Read.id Read.password
  verify_login_request-empty t depth h =
      both-Passes fb L bs (suc depth) depth depth _ _
        (λ v r. L.verify_table_start-Room bs t _ depth v h r)
        (both-Passes fb L bs depth depth depth _ _
          (test-Passes fb L bs depth _ (λ v r. L.verify_offset-Reads bs t _ vt_id depth v h r))
          (both-Passes fb L bs depth depth depth _ _ (absent vt_id) (
            both-Passes fb L bs depth depth depth _ _
              (test-Passes fb L bs depth _
                (λ v r. L.verify_offset-Reads bs t _ vt_password depth v h r))
              (both-Passes fb L bs depth depth depth _ _ (absent vt_password)
                (λ v r. L.end_table-Room bs depth v r)))))
    where
      absent :
          (place : ℕ)
          → Passes fb L bs depth depth (λ v. (fb.verify_string (fb.get_text place t) v, v))
      absent place v r = (
        ap (λ o. fb.verify_string o v) (L.get_text-none bs t no_fields place h refl)
            ∙ L.verify_string-none v,
        r,
      )

  verify_incomplete :
      (p : fb.Table) (fs : Fields)
      → IsIncomplete fs
      → L.Reads bs p fs
      → (after : ℕ) × Passes fb L bs 2 after (verify_packet fb p)
  unfolding type_ type_type verify_packet_type
  verify_incomplete p fs login_alone h = (
    1,
    verify_packet-inner fb L bs p _ 1 h (
        Passes-cong fb L bs 1 1 _ (λ v. (true, v))
          (λ v.
            simp
              (L.get_field-Reads bs p _ 1 vt_type_type 0 h, L.get_table-none bs p _ vt_type h refl)
              (L.verify_table-none (verify_login_request fb) v))
          (λ v r. (refl, r))),
  )
  verify_incomplete p fs connect_alone h = (
    1,
    verify_packet-inner fb L bs p _ 1 h (
        Passes-cong fb L bs 1 1 _ (λ v. (true, v))
          (λ v.
            simp
              (L.get_field-Reads bs p _ 1 vt_type_type 0 h, L.get_table-none bs p _ vt_type h refl)
              (L.verify_table-none (verify_connect_server_request fb) v))
          (λ v r. (refl, r))),
  )
  verify_incomplete p fs login_empty h =
      let (t, linked, reads) = L.get_table-Reads bs p _ no_fields vt_type h refl in
      (
        0,
        verify_packet-inner fb L bs p _ 0 h (
            Passes-cong fb L bs 1 0 _ (verify_login_request fb t)
              (λ v.
                simp (L.get_field-Reads bs p _ 1 vt_type_type 0 h, linked)
                  (L.verify_table-some (verify_login_request fb) t v))
              (verify_login_request-empty t 0 reads)),
      )

  verify_payload-incomplete :
      (fs : Fields)
      → IsIncomplete fs
      → L.Reads bs (fb.get_root bs) fs
      → L.Room bs 2 (fb.verifier bs (length bs))
      → verify_payload fb bs ≡ true
  unfolding verify_payload verify_packet_buffer
  verify_payload-incomplete fs i h room =
      let v = fb.verifier bs (length bs) in
      let (_, passes) = verify_incomplete (fb.get_root bs) fs i h in
      ap (λ out. out.0) (L.verify_buffer-root bs fs (verify_packet fb) 2 v h room)
      ∙ (passes v room).0

  on_packet-incomplete :
      {S : Type 0} (send_async : List ℕ → S → S) (fs : Fields) (p : fb.Table) (s : S)
      → IsIncomplete fs
      → L.Reads bs p fs
      → on_packet fb send_async p s ≡ none
  unfolding on_packet login_request login_with connect_server_request Read.type_as_login_request
      Read.type_as_connect_server_request Read.type_type Read.type_ Read.id Read.password
  on_packet-incomplete send_async fs p s login_alone h =
      simp (L.get_field-Reads bs p _ 1 vt_type_type 0 h, L.get_table-none bs p _ vt_type h refl)
        refl
  on_packet-incomplete send_async fs p s connect_alone h =
      simp (L.get_field-Reads bs p _ 1 vt_type_type 0 h, L.get_table-none bs p _ vt_type h refl)
        refl
  on_packet-incomplete send_async fs p s login_empty h =
      let (t, linked, reads) = L.get_table-Reads bs p _ no_fields vt_type h refl in
      simp
        (
          L.get_field-Reads bs p _ 1 vt_type_type 0 h,
          linked,
          L.get_text-none bs t _ vt_id reads refl,
        )
        refl

  -- A packet that says that it is a login or a connect request and holds no table, or a login request
  -- without its strings, passes the check and makes its handler dereference a null pointer.
  pub on_receive_packet-incomplete :
      {S : Type 0} (send_async : List ℕ → S → S) (fs : Fields) (s : S)
      (c : ClientSession (Option S))
      → IsIncomplete fs
      → L.Reads bs (fb.get_root bs) fs
      → L.Room bs 2 (fb.verifier bs (length bs))
      → IsSendable bs
      → Holds [] (some s) c
      → (verify_payload fb bs ≡ true)
        × ((c' : ClientSession (Option S)) × (receive_chunks
                (verify_payload fb)
                (handle_payload fb send_async)
                c
                (frame bs ∷ [])
              ≡ some c')
            × (c'.state ≡ none))
  unfolding handle_payload get_packet
  on_receive_packet-incomplete send_async fs s c i h room sendable holds =
      let ok = verify_payload-incomplete fs i h room in
      let (c', run, held) =
        receive_chunks_stream (verify_payload fb) (handle_payload fb send_async)
          (record { packet = bs; first = frame bs; others = [] } ∷ []) (some s) c
          ((sendable, ok, tt, append-nil (frame bs)), tt) holds in
      (ok, (c', run, held.state_is ∙ on_packet-incomplete send_async fs (fb.get_root bs) s i h))
