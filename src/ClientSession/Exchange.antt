-- ===== src/ClientSession/Exchange.antt =====
-- What the client's session sends when a message of the server arrives.
use cpp_iocplib.Base.{ℕ, Bool, true, false, List, [], ◌∷◌, some, ◌≡◌, refl, ◌==◌, if◌then◌else◌}
use cpp_iocplib.FlatBuffers.{FlatBuffers}
use cpp_iocplib.FlatBuffers.Laws.{IsLawful}
use cpp_iocplib.Message.Client.Built as Request
use cpp_iocplib.Message.Server.Built
use cpp_iocplib.Message.Server.Read.{get_packet}
use cpp_iocplib.Message.Server.Laws.{read_server_message}
use cpp_iocplib.ClientSession.{
  login_result, connect_server_result, logout_result, connect_server_request, send_logout_request,
  handle_packet, on_packet,
}

-- The requests that follow a message of the server.
abbrev pub next_requests : Built.Content → List Request.Content
next_requests (Built.Content.login_result error) =
    if error == 0 then Request.Content.connect_server_request 1 ∷ [] else []
next_requests (Built.Content.connect_server_result error) = Request.Content.logout_request ∷ []
next_requests Built.Content.logout_result = []

module _ (fb : FlatBuffers) (L : IsLawful fb) {S : Type 0} (send_packet : List ℕ → S → S) where
  -- Requests sent one after another.
  abbrev pub sent : List Request.Content → S → S
  sent [] s = s
  sent (m ∷ ms) s = sent ms (send_packet (Request.bytes_of fb m) s)

  handle_packet-message :
      (m : Built.Content) (s : S)
      → handle_packet fb send_packet (get_packet fb (Built.bytes_of fb m)) s
        ≡ some (sent (next_requests m) s)
  unfolding handle_packet login_result connect_server_result logout_result connect_server_request
      send_logout_request
  handle_packet-message (Built.Content.login_result error) s =
      let (_, tagged, t, at_, shows) =
        read_server_message fb L (Built.Content.login_result error) in
      simp (tagged, at_, shows) (by_error (error == 0))
    where
      by_error :
          (b : Bool)
          → some (
              if b
              then send_packet (Request.bytes_of fb (Request.Content.connect_server_request 1)) s
              else s)
            ≡ some (sent (if b then Request.Content.connect_server_request 1 ∷ [] else []) s)
      by_error true = refl
      by_error false = refl
  handle_packet-message (Built.Content.connect_server_result error) s =
      let (_, tagged, t, at_, _) =
        read_server_message fb L (Built.Content.connect_server_result error) in
      simp (tagged, at_) refl
  handle_packet-message Built.Content.logout_result s =
      let (_, tagged, _, _, _) = read_server_message fb L Built.Content.logout_result in
      simp tagged refl

  -- A message of the server, in the bytes that it is built into, makes the client send what follows
  -- it: the connect request after a login without error, the logout after a connect, and nothing
  -- otherwise. No null pointer is dereferenced.
  pub on_packet-next_requests :
      (m : Built.Content) (s : S)
      → on_packet fb send_packet (Built.bytes_of fb m) s ≡ some (sent (next_requests m) s)
  unfolding on_packet
  on_packet-next_requests m s = simp (read_server_message fb L m).0 (handle_packet-message m s)
