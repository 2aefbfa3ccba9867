-- ===== src/Network/Whole/Completes.antt =====
-- The three requests and their results, one after another.
use cpp_iocplib.Base.{List, ℕ, [], ◌++◌, map, ◌≡◌, refl, sym, ap, ◌∙◌, append-nil, append_assoc}
use mathlib.Core.Path.{subst}
use cpp_iocplib.FlatBuffers.{FlatBuffers}
use cpp_iocplib.FlatBuffers.Laws.{IsLawful}
use cpp_iocplib.Packet
use cpp_iocplib.Packet.Frame.{frame, IsSendable}
use cpp_iocplib.Packet.Valid.{gathered-clear, clear-IsValid}
use cpp_iocplib.Message.Client.Built as Request
use cpp_iocplib.Message.Server.Built as Reply
use cpp_iocplib.ClientSession.{send_login_request, until_nul}
use cpp_iocplib.ClientSession.Exchange.{next_requests}
use cpp_iocplib.Session.Sender.System
use cpp_iocplib.Session.Sender
use cpp_iocplib.ServerSession.Answers.{answer}
use cpp_iocplib.Conversation.Course.{all_requests, all_results}
use cpp_iocplib.Network.{Network, start, Reach, here}
use cpp_iocplib.Network.Streams.{frames}
use cpp_iocplib.Network.Turns.{AllSendable}
use cpp_iocplib.Network.Whole.{take_whole, succeeds, send_whole}
use cpp_iocplib.Network.Whole.Exchange.{framed, Rests, Run, request_arrives, answer_arrives}

three : (as_ bs cs : List ℕ) → (as_ ++ bs) ++ cs ≡ as_ ++ (bs ++ (cs ++ []))
three as_ bs cs = append_assoc as_ bs cs ∙ ap (λ ys. as_ ++ (bs ++ ys)) (sym (append-nil cs))

module _ (fb : FlatBuffers) (L : IsLawful fb) (id password : List ℕ) where
  -- A request and its answer, by the bytes that the client then sends.
  exchange :
      (m : Request.Content) (written answered more : List ℕ) (ν : Network)
      → let p = Request.bytes_of fb m in
        let d = Reply.bytes_of fb (answer m) in
        IsSendable p
        → IsSendable d
        → AllSendable (map (Request.bytes_of fb) (next_requests (answer m)))
        → framed fb L (next_requests (answer m)) ≡ more
        → Run fb L id password ν
        → Rests fb L (written ++ frame p) written answered ν
        → (μ : Network) × Run fb L id password μ
          × Rests fb L ((written ++ frame p) ++ more) (written ++ frame p) (answered ++ frame d) μ
  exchange m written answered more ν hp hd hq e run s =
      let p = Request.bytes_of fb m in
      let d = Reply.bytes_of fb (answer m) in
      let (ν', run', s') = request_arrives fb L id password m written answered ν hp run s in
      let (ν'', run'', s'') =
        answer_arrives fb L id password (answer m) (written ++ frame p) (written ++ frame p)
          answered ν' hd hq run' s' in
      (
        ν'',
        run'',
        subst
            (λ bs.
              Rests fb L ((written ++ frame p) ++ bs) (written ++ frame p) (answered ++ frame d)
                ν'')
            e s'',
      )

  pub start-Rests :
      let p =
        Request.bytes_of fb (Request.Content.login_request (until_nul id) (until_nul password)) in
      IsSendable p
      → Rests fb L ([] ++ frame p) [] [] (start fb take_whole succeeds succeeds id password)
  unfolding start send_login_request Packet.new Packet.clear System.start Sender.new
      Sender.on_accept
  start-Rests h = record {
    k = 1;
    client = record {
      valid = clear-IsValid Packet.new;
      held = gathered-clear Packet.new;
      state_is = send_whole _ [] 0 h;
    };
    k' = 0;
    e = 0;
    acknowledged = [];
    server = record {
      valid = clear-IsValid Packet.new;
      held = gathered-clear Packet.new;
      state_is = refl;
    };
    all_acknowledged = refl;
    taken_is = refl;
    seen_is = refl;
  }

  moved :
      {written written' taken taken' answered answered' : List ℕ} {ν : Network}
      → written ≡ written'
      → taken ≡ taken'
      → answered ≡ answered'
      → Rests fb L written taken answered ν
      → Rests fb L written' taken' answered' ν
  moved {written' = written'} {taken} {taken'} {answered} {ν = ν} w t a s =
      subst (λ bs. Rests fb L written' taken' bs ν) a
        (subst (λ bs. Rests fb L written' bs answered ν) t
          (subst (λ bs. Rests fb L bs taken answered ν) w s))

  abbrev pub Ended : Network → Type 0
  Ended ν =
      Rests fb L (frames (all_requests fb L id password)) (frames (all_requests fb L id password))
        (frames (all_results fb L id password)) ν

  -- The run to the end.
  pub runs :
      AllSendable (all_requests fb L id password)
      → AllSendable (all_results fb L id password)
      → (ν : Network) × Run fb L id password ν × Ended ν
  runs q r =
      let login = Request.Content.login_request (until_nul id) (until_nul password) in
      let connect = Request.Content.connect_server_request 1 in
      let logout = Request.Content.logout_request in
      let (ν1, run1, s1) =
        exchange login [] [] (frame (Request.bytes_of fb connect)) _ q.0 r.0 (q.1.0, tt)
          (append-nil (frame (Request.bytes_of fb connect))) here (start-Rests q.0) in
      let (ν2, run2, s2) =
        exchange connect _ _ (frame (Request.bytes_of fb logout)) ν1 q.1.0 r.1.0 (q.1.1.0, tt)
          (append-nil (frame (Request.bytes_of fb logout))) run1 s1 in
      let (ν3, run3, s3) = exchange logout _ _ [] ν2 q.1.1.0 r.1.1.0 tt refl run2 s2 in
      let requests =
        three (frame (Request.bytes_of fb login)) (frame (Request.bytes_of fb connect))
          (frame (Request.bytes_of fb logout)) in
      let results =
        three (frame (Reply.bytes_of fb (answer login)))
          (frame (Reply.bytes_of fb (answer connect)))
          (frame (Reply.bytes_of fb (answer logout))) in
      (ν3, run3, moved (append-nil _ ∙ requests) requests results s3)

  -- The conversation can run to its end: there is a run of the two programs, over a system that takes
  -- all that it is given, by which the server receives the frames of the login, the connect and the
  -- logout request, and the client those of their results. (Every message's frame has a length below
  -- 2 ^ 32.)
  pub network-completes :
      AllSendable (all_requests fb L id password)
      → AllSendable (all_results fb L id password)
      → (ν : Network) × Reach fb take_whole succeeds succeeds 1
          (start fb take_whole succeeds succeeds id password)
          ν
        × (ν.taken ≡ frames (all_requests fb L id password))
        × (ν.seen ≡ frames (all_results fb L id password))
  network-completes q r = let (ν, run, s) = runs q r in (ν, run, s.taken_is, s.seen_is)
