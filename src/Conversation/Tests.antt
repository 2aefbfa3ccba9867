-- ===== src/Conversation/Tests.antt =====
-- The instance of the conversation's theorem, over the sample library: the server has answered the
-- login.
use cpp_iocplib.Base.{ℕ, List, [], ◌∷◌, drop, ◌≡◌, ◌⊎◌, refl}
use cpp_iocplib.FlatBuffers.Sample.{sample, sample-IsLawful}
use cpp_iocplib.Message.Client.Built as Request
use cpp_iocplib.Message.Server.Built as Reply
use cpp_iocplib.ServerSession.Handlers.{handle_payload}
use cpp_iocplib.ServerSession.Answers.{on_packet-answer, verify_payload-message}
use cpp_iocplib.ClientSession.{send_login_request, until_nul}
use cpp_iocplib.Conversation.{Conversation, send, start, Step, serves, Reach, here, next}
use cpp_iocplib.Conversation.Course.{all_requests, all_results, Reach-conversation}

abbrev id : List ℕ
id = 116 ∷ []

abbrev password : List ℕ
password = 112 ∷ []

abbrev login : Request.Content
login = Request.Content.login_request id password

abbrev answered : Conversation
answered = record {
  requests = Request.bytes_of sample login ∷ [];
  results = Reply.bytes_of sample (Reply.Content.login_result 0) ∷ [];
  served = 1;
  seen = 0;
}

answered-Reach : Reach sample (start sample id password) answered
unfolding handle_payload send_login_request until_nul
answered-Reach = next here (
    serves (Request.bytes_of sample login) [] _ refl
      (verify_payload-message sample sample-IsLawful send login)
      (on_packet-answer sample sample-IsLawful send login []))

Reach-conversation_example :
    ((drop 1 answered.requests ≡ [])
      × (drop 0 answered.results ≡ [])
      × (answered.requests ≡ all_requests sample sample-IsLawful id password)
      × (answered.results ≡ all_results sample sample-IsLawful id password))
    ⊎ ((υ : Conversation) × Step sample answered υ)
Reach-conversation_example = Reach-conversation sample sample-IsLawful id password answered-Reach
