-- ===== src/Message/Tests.antt =====
-- The instances of the messages' theorems, over the sample library.
use cpp_iocplib.Base.{true, [], ◌∷◌, some, ◌≡◌, length}
use cpp_iocplib.FlatBuffers.Sample.{sample, sample-IsLawful}
use cpp_iocplib.Message.Client.Kinds.{packet_type_login_request}
use cpp_iocplib.Message.Client.Read as Request
use cpp_iocplib.Message.Client.Built as Asked
use cpp_iocplib.Message.Client.Laws.{read_client_message}
use cpp_iocplib.Message.Server.Kinds.{packet_type_login_result}
use cpp_iocplib.Message.Server.Read as Result
use cpp_iocplib.Message.Server.Built as Answered
use cpp_iocplib.Message.Server.Laws.{read_server_message}

abbrev login : Asked.Content
login = Asked.Content.login_request (116 ∷ 101 ∷ []) (112 ∷ [])

read_client_message_example :
    let bs = Asked.bytes_of sample login in
    let p = Request.get_packet sample bs in
    ((Request.verify_packet_buffer sample (sample.verifier bs (length bs))).0 ≡ true)
    × (Request.type_type sample p ≡ packet_type_login_request)
    × (t : sample.Table) × (Request.type_as_login_request sample p ≡ some t)
    × Asked.Shows sample login t
read_client_message_example = read_client_message sample sample-IsLawful login

abbrev refused : Answered.Content
refused = Answered.Content.login_result 5

read_server_message_example :
    let bs = Answered.bytes_of sample refused in
    let p = Result.get_packet sample bs in
    ((Result.verify_packet_buffer sample (sample.verifier bs (length bs))).0 ≡ true)
    × (Result.type_type sample p ≡ packet_type_login_result)
    × (t : sample.Table) × (Result.type_as_login_result sample p ≡ some t)
    × (Result.error_of_login_result sample t ≡ 5)
read_server_message_example = read_server_message sample sample-IsLawful refused
