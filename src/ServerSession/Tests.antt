-- ===== src/ServerSession/Tests.antt =====
-- Tests of the server's session, and the instances of its theorems. The state is the packets
-- handed on, the newest first.
use cpp_iocplib.WinError.{wsa_io_pending}
use cpp_iocplib.Session.Receiver.{receive_result}
use cpp_iocplib.ServerSession.Received.{completions, armed, completions-answers}
use cpp_iocplib.Message.Client.Build
use cpp_iocplib.Message.Client.Built as Request
use cpp_iocplib.Base.{
  none, Option, ◌==◌, not, arith, Bool, length, decode32, ◌++◌, encode32, List, ℕ, ◌≡◌, append-nil,
  refl, [], ◌∷◌, some, true, ◌+◌,
}
use cpp_iocplib.FlatBuffers.Laws.{element, no_fields}
use cpp_iocplib.FlatBuffers.Sample.{sample, sample-IsLawful, sample-Reads, sample-Room}
use cpp_iocplib.FlatBuffers.Sample.Format.{encode_fields}
use cpp_iocplib.Message.Server.Built as Reply
use cpp_iocplib.ServerSession.Handlers.{verify_payload, handle_payload}
use cpp_iocplib.ServerSession.Crash.{login_alone, on_receive_packet-incomplete}
use cpp_iocplib.Packet.{new, is_complete, payload}
use cpp_iocplib.Packet.Valid.{new-IsValid, IsValid}
use cpp_iocplib.Packet.Frame.{frame, IsSendable}
use cpp_iocplib.ServerSession.{ClientSession, on_receive_packet}
use cpp_iocplib.ServerSession.Rounds.{Holds, on_receive_packet_total}
use cpp_iocplib.ServerSession.Stream.{Arrival, chunks_of, receive_chunks, receive_chunks_stream}
use cpp_iocplib.ServerSession.Replay.{second_packet_lost, refused_packet_wedges}

abbrev State : Type 0
State = List (List ℕ)

abbrev keep : List ℕ → State → State
keep p s = p ∷ s

-- A packet that begins with 0 is refused.
abbrev check : List ℕ → Bool
check [] = true
check (b ∷ bs) = not (b == 0)

abbrev fresh : ClientSession State
fresh = record { packet_receiver = new; state = [] }

fresh-Holds : Holds [] [] fresh
unfolding new
fresh-Holds = record { valid = new-IsValid; held = refl; state_is = refl }

-- Two packets, the first cut inside its header and inside its payload.
abbrev arrivals : List Arrival
arrivals =
    record { packet = 7 ∷ 9 ∷ []; first = 2 ∷ 0 ∷ []; others = (0 ∷ 0 ∷ 7 ∷ []) ∷ (9 ∷ []) ∷ [] }
    ∷ record { packet = 5 ∷ []; first = 1 ∷ 0 ∷ 0 ∷ 0 ∷ 5 ∷ []; others = [] }
    ∷ []

receive_chunks_stream_example :
    (c' : ClientSession State) × (receive_chunks check keep fresh (chunks_of arrivals) ≡ some c')
    × Holds [] ((5 ∷ []) ∷ (7 ∷ 9 ∷ []) ∷ []) c'
unfolding encode32
receive_chunks_stream_example =
    receive_chunks_stream check keep arrivals [] fresh
      (
        (omega arith, refl, (omega arith, (omega arith, tt)), refl),
        ((omega arith, refl, tt, refl), tt),
      )
      fresh-Holds

on_receive_packet_total_example :
    (c' : ClientSession State) × (on_receive_packet check keep fresh (2 ∷ 0 ∷ 0 ∷ 0 ∷ 7 ∷ []) 5
      ≡ some c')
on_receive_packet_total_example =
    on_receive_packet_total check keep fresh (2 ∷ 0 ∷ 0 ∷ 0 ∷ 7 ∷ []) 5

second_packet_lost_example :
    let chunk = frame (7 ∷ []) ++ frame (8 ∷ []) in
    (c' : ClientSession State) × (on_receive_packet check keep fresh chunk (length chunk) ≡ some c')
    × Holds [] ((7 ∷ []) ∷ (7 ∷ []) ∷ []) c'
second_packet_lost_example =
    second_packet_lost check keep (7 ∷ []) (8 ∷ []) [] fresh (omega arith) refl refl fresh-Holds

-- A receiver that holds a packet that is refused.
abbrev refused : ClientSession State
refused = record {
  packet_receiver = record { packet_length = 1; offset = 5; bytes = 1 ∷ 0 ∷ 0 ∷ 0 ∷ 0 ∷ [] };
  state = [];
}

refused-IsValid : IsValid refused.packet_receiver
unfolding decode32
refused-IsValid = record {
  inside = omega arith;
  starts = λ h. absurd (omega arith);
  declared = λ _. refl;
  within = omega arith;
  fits = omega arith;
}

refused_packet_wedges_example :
    (c' : ClientSession State) × (on_receive_packet check keep refused
        (frame (7 ∷ []))
        (length (frame (7 ∷ [])))
      ≡ some c')
    × (c'.state ≡ [])
    × IsValid c'.packet_receiver
    × (is_complete c'.packet_receiver ≡ true)
    × (payload c'.packet_receiver ≡ payload refused.packet_receiver)
unfolding is_complete payload
refused_packet_wedges_example =
    refused_packet_wedges check keep refused (frame (7 ∷ [])) refused-IsValid refl refl

abbrev quiet : ClientSession (Option State)
quiet = record { packet_receiver = new; state = some [] }

quiet-Holds : Holds [] (some []) quiet
unfolding new
quiet-Holds = record { valid = new-IsValid; held = refl; state_is = refl }

abbrev logout : List ℕ
logout = Request.bytes_of sample Request.Content.logout_request

logout_short : IsSendable logout
unfolding Build.packet_bytes Build.create_packet Build.finish_packet Build.add_type_type
    Build.add_type Build.packet_builder Build.create_logout_request Build.finish_logout_request
    Build.logout_request_builder encode_fields
logout_short = omega arith

-- A completion that finds nothing to read, and then the frame of a logout request in one chunk.
completions-answers_example :
    (c' : ClientSession (Option State)) × (completions
        (λ _. some wsa_io_pending)
        (verify_payload sample)
        (handle_payload sample keep)
        ([] ∷ (frame logout ∷ []) ∷ [])
        (armed 0)
        (record { chunks = []; session = some quiet; started = 1 })
      ≡ some (armed 0, record { chunks = []; session = some c'; started = 2 + 1 }))
    × Holds [] (some (Reply.bytes_of sample Reply.Content.logout_result ∷ [])) c'
unfolding encode32 receive_result
completions-answers_example =
    completions-answers sample sample-IsLawful (λ _. some wsa_io_pending) keep
      (Request.Content.logout_request ∷ [])
      (record { packet = logout; first = frame logout; others = [] } ∷ [])
      ([] ∷ (frame logout ∷ []) ∷ []) [] quiet 0 1 (λ n. refl)
      ((refl, logout_short, tt, append-nil (frame logout)), tt) (omega arith, tt) refl quiet-Holds

-- A login request without a table.
abbrev alone : List ℕ
alone = encode_fields (element 4 1 no_fields)

on_receive_packet-incomplete_example :
    (verify_payload sample alone ≡ true)
    × ((c' : ClientSession (Option State)) × (receive_chunks
            (verify_payload sample)
            (handle_payload sample keep)
            quiet
            (frame alone ∷ [])
          ≡ some c')
        × (c'.state ≡ none))
unfolding encode_fields
on_receive_packet-incomplete_example =
    on_receive_packet-incomplete sample sample-IsLawful alone keep (element 4 1 no_fields) [] quiet
      login_alone (sample-Reads (element 4 1 no_fields)) (sample-Room alone) (omega arith)
      quiet-Holds
