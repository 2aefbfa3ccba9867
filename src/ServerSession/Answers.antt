-- ===== src/ServerSession/Answers.antt =====
-- What the server's session answers to the messages of a client.
use cpp_iocplib.Base.{ℕ, true, List, [], ◌∷◌, Option, some, ◌≡◌, refl, ap, ◌∙◌, concat}
use mathlib.Core.Path.{subst}
use cpp_iocplib.FlatBuffers.{FlatBuffers}
use cpp_iocplib.FlatBuffers.Laws.{IsLawful}
use cpp_iocplib.Packet.Frame.{frame, IsSendable}
use cpp_iocplib.Message.Client.Read.{get_packet}
use cpp_iocplib.Message.Client.Built
use cpp_iocplib.Message.Client.Laws.{read_client_message}
use cpp_iocplib.Message.Server.Built as Reply
use cpp_iocplib.ServerSession.{ClientSession}
use cpp_iocplib.ServerSession.Rounds.{Holds}
use cpp_iocplib.ServerSession.Stream.{
  Arrival, AllNonEmpty, AllWhole, chunks_of, receive_chunks, receive_chunks_stream, handed_on,
}
use cpp_iocplib.ServerSession.Handlers.{
  login_with, login_request, logout_request, connect_server_request, on_packet, verify_payload,
  handle_payload,
}

-- The answer to each request.
abbrev pub answer : Built.Content → Reply.Content
answer (Built.Content.login_request id password) = Reply.Content.login_result 0
answer (Built.Content.connect_server_request n) = Reply.Content.connect_server_result 0
answer Built.Content.logout_request = Reply.Content.logout_result

module _ (fb : FlatBuffers) (L : IsLawful fb) {S : Type 0} (send_async : List ℕ → S → S) where
  -- Every request of a client is answered with one message, the result that belongs to it.
  pub on_packet-answer :
      (m : Built.Content) (s : S)
      → on_packet fb send_async (get_packet fb (Built.bytes_of fb m)) s
        ≡ some (send_async (Reply.bytes_of fb (answer m)) s)
  unfolding on_packet login_request login_with connect_server_request logout_request
  on_packet-answer (Built.Content.login_request id password) s =
      let (_, tagged, t, at_, shows) =
        read_client_message fb L (Built.Content.login_request id password) in
      simp (tagged, at_, shows.0.1, shows.1.1) refl
  on_packet-answer (Built.Content.connect_server_request n) s =
      let (_, tagged, t, at_, _) =
        read_client_message fb L (Built.Content.connect_server_request n) in
      simp (tagged, at_) refl
  on_packet-answer Built.Content.logout_request s =
      let (_, tagged, _, _, _) = read_client_message fb L Built.Content.logout_request in
      simp tagged refl

  pub verify_payload-message : (m : Built.Content) → verify_payload fb (Built.bytes_of fb m) ≡ true
  unfolding verify_payload
  verify_payload-message m = (read_client_message fb L m).0

  -- Packets that arrive, each in chunks of its own, and are these messages.
  abbrev pub Carries : List Built.Content → List Arrival → Type 0
  Carries [] [] = Unit {0}
  Carries [] (a ∷ as_) = ⊥
  Carries (m ∷ ms) [] = ⊥
  Carries (m ∷ ms) (a ∷ as_) =
      ((a.packet ≡ Built.bytes_of fb m)
        × IsSendable a.packet
        × AllNonEmpty a.others
        × (concat (a.first ∷ a.others) ≡ frame a.packet))
      × Carries ms as_

  -- The answers to requests, sent one after another.
  abbrev pub answered : List Built.Content → S → S
  answered [] s = s
  answered (m ∷ ms) s = answered ms (send_async (Reply.bytes_of fb (answer m)) s)

  Carries-AllWhole :
      (ms : List Built.Content) (as_ : List Arrival)
      → Carries ms as_
      → AllWhole (verify_payload fb) (handle_payload fb send_async) as_
  Carries-AllWhole [] [] h = tt
  Carries-AllWhole [] (a ∷ as_) h = absurd h
  Carries-AllWhole (m ∷ ms) [] h = absurd h
  Carries-AllWhole (m ∷ ms) (a ∷ as_) h = (
    (h.0.1, ap (verify_payload fb) h.0.0 ∙ verify_payload-message m, h.0.2, h.0.3),
    Carries-AllWhole ms as_ h.1,
  )

  handed_on-answered :
      (ms : List Built.Content) (as_ : List Arrival) (s : S)
      → Carries ms as_
      → handed_on (verify_payload fb) (handle_payload fb send_async) as_ (some s)
        ≡ some (answered ms s)
  unfolding handle_payload
  handed_on-answered [] [] s h = refl
  handed_on-answered [] (a ∷ as_) s h = absurd h
  handed_on-answered (m ∷ ms) [] s h = absurd h
  handed_on-answered (m ∷ ms) (a ∷ as_) s h =
      ap
        (λ p.
          handed_on (verify_payload fb) (handle_payload fb send_async) as_
            (on_packet fb send_async (get_packet fb p) s))
        h.0.0
      ∙ ap (handed_on (verify_payload fb) (handle_payload fb send_async) as_) (on_packet-answer m s)
      ∙ handed_on-answered ms as_ (send_async (Reply.bytes_of fb (answer m)) s) h.1

  -- However the frames of a client's messages are cut into chunks, as long as no chunk holds bytes of
  -- two of them, the session sends the answer to each, once and in order, and nothing else; it
  -- dereferences no null pointer, and at the end it has gathered nothing.
  pub receive_chunks-answers :
      (ms : List Built.Content) (as_ : List Arrival) (s : S) (c : ClientSession (Option S))
      → Carries ms as_
      → Holds [] (some s) c
      → (c' : ClientSession (Option S)) × (receive_chunks
            (verify_payload fb)
            (handle_payload fb send_async)
            c
            (chunks_of as_)
          ≡ some c')
        × Holds [] (some (answered ms s)) c'
  receive_chunks-answers ms as_ s c h k =
      let (c', run, held) =
        receive_chunks_stream (verify_payload fb) (handle_payload fb send_async) as_ (some s) c
          (Carries-AllWhole ms as_ h) k in
      (c', run, subst (λ o. Holds [] o c') (handed_on-answered ms as_ s h) held)
