-- ===== src/Network/Tests.antt =====
-- The instances of the theorems on the two programs, over the sample library.
use cpp_iocplib.Session.Sender
use cpp_iocplib.Session.Sender.System
use cpp_iocplib.ServerSession.{ClientSession}
use cpp_iocplib.Packet.Frame.{frame}
use cpp_iocplib.Message.Client.Built as Request
use cpp_iocplib.Base.{ℕ, List, [], ◌∷◌, ◌++◌, ◌≡◌, refl, sym, arith, encode32}
use cpp_iocplib.FlatBuffers.Sample.{sample, sample-IsLawful}
use cpp_iocplib.Message.Client.Build
use cpp_iocplib.Message.Server.Build as Reply
use cpp_iocplib.FlatBuffers.Sample.Format.{encode_fields}
use cpp_iocplib.ClientSession.{until_nul}
use cpp_iocplib.Conversation
use cpp_iocplib.Conversation.{Conversation}
use cpp_iocplib.Conversation.Course.{all_requests, all_results}
use cpp_iocplib.Session.Sender.System.{System}
use cpp_iocplib.Network.{Network}
use cpp_iocplib.Network.Streams.{frames}
use cpp_iocplib.Network.Turns.{AllSendable}
use cpp_iocplib.Network.Course.{network-over}
use cpp_iocplib.Network.Whole.{take_whole, succeeds}
use cpp_iocplib.Network.Whole.Exchange.{Run}
use cpp_iocplib.Network.Whole.Completes.{Ended, runs, network-completes}

abbrev id : List ℕ
id = 116 ∷ []

abbrev password : List ℕ
password = 112 ∷ []

abbrev requests : List (List ℕ)
requests = all_requests sample sample-IsLawful id password

abbrev results : List (List ℕ)
results = all_results sample sample-IsLawful id password

requests-AllSendable : AllSendable requests
unfolding until_nul encode_fields Build.add_type_type Build.add_type Build.packet_builder
    Build.finish_packet Build.create_packet Build.add_id Build.add_password
    Build.login_request_builder Build.finish_login_request Build.create_login_request
    Build.create_login_request_direct Build.add_server_id Build.connect_server_request_builder
    Build.finish_connect_server_request Build.create_connect_server_request
    Build.logout_request_builder Build.finish_logout_request Build.create_logout_request
    Build.finish_packet_buffer Build.packet_bytes
requests-AllSendable = (omega arith, (omega arith, (omega arith, tt)))

results-AllSendable : AllSendable results
unfolding encode_fields Reply.add_type_type Reply.add_type Reply.packet_builder Reply.finish_packet
    Reply.create_packet Reply.add_error_of_login_result Reply.login_result_builder
    Reply.finish_login_result Reply.create_login_result Reply.logout_result_builder
    Reply.finish_logout_result Reply.create_logout_result Reply.add_error_of_connect_server_result
    Reply.connect_server_result_builder Reply.finish_connect_server_result
    Reply.create_connect_server_result Reply.finish_packet_buffer Reply.packet_bytes
results-AllSendable = (omega arith, (omega arith, (omega arith, tt)))

-- A run to the end.
ending :
    (ν : Network) × Run sample sample-IsLawful id password ν
    × Ended sample sample-IsLawful id password ν
ending = runs sample sample-IsLawful id password requests-AllSendable results-AllSendable

network-over_example : (ending.0.taken ≡ frames requests) × (ending.0.seen ≡ frames results)
network-over_example =
    network-over sample sample-IsLawful take_whole succeeds succeeds 0 id password
      requests-AllSendable results-AllSendable _ _ ending.1 ending.2.client.state_is
      ending.2.server.state_is (sym ending.2.taken_is) refl (sym ending.2.seen_is)

network-completes_example :
    (ν : Network) × Run sample sample-IsLawful id password ν
    × (ν.taken ≡ frames requests)
    × (ν.seen ≡ frames results)
network-completes_example =
    network-completes sample sample-IsLawful id password requests-AllSendable results-AllSendable

abbrev login : List ℕ
login = Request.bytes_of sample (Request.Content.login_request id password)

login_header : frame login ≡ (18 ∷ 0 ∷ 0 ∷ 0 ∷ []) ++ login
unfolding encode32 encode_fields Build.add_type_type Build.add_type Build.packet_builder
    Build.finish_packet Build.create_packet Build.add_id Build.add_password
    Build.login_request_builder Build.finish_login_request Build.create_login_request
    Build.create_login_request_direct Build.add_server_id Build.connect_server_request_builder
    Build.finish_connect_server_request Build.create_connect_server_request
    Build.logout_request_builder Build.finish_logout_request Build.create_logout_request
    Build.finish_packet_buffer Build.packet_bytes
login_header = refl
