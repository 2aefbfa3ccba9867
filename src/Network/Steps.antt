-- ===== src/Network/Steps.antt =====
-- Every step of the two programs keeps the invariant of their byte streams.
use cpp_iocplib.Base.{
  ℕ, suc, Bool, true, false, inl, List, [], ◌∷◌, ◌++◌, Option, none, some, ◌≡◌, refl, sym, ap, ◌∙◌,
  append-nil, append_assoc,
}
use mathlib.Core.Path.{subst}
use mathlib.Core.Option.{some-injective}
use cpp_iocplib.FlatBuffers.{FlatBuffers}
use cpp_iocplib.FlatBuffers.Laws.{IsLawful}
use cpp_iocplib.Packet
use cpp_iocplib.Packet.Frame.{frame}
use cpp_iocplib.Packet.Valid.{gathered-clear, clear-IsValid}
use cpp_iocplib.Message.Client.Built as Request
use cpp_iocplib.ClientSocket.{Sending}
use cpp_iocplib.ClientSocket.Send.{pending}
use cpp_iocplib.ClientSession.{send_login_request, until_nul}
use cpp_iocplib.Session.Sender.Bytes.{in_flight, bytes_of}
use cpp_iocplib.Session.Sender.Begin.{Outstanding}
use cpp_iocplib.Session.Sender.System
use cpp_iocplib.Session.Sender.Invariant as Sender
use cpp_iocplib.Session.Sender.System.{
  System, Operation, signal, write, bytes_in, after_completion, completes,
}
use cpp_iocplib.Conversation.{Conversation}
use cpp_iocplib.Conversation
use cpp_iocplib.Conversation.Course.{all_requests, all_results}
use cpp_iocplib.Network.{
  Network, Outgoing, started, start, Step, serves, sees, writes, completes, Reach, here, next,
}
use cpp_iocplib.Network.Streams.{frames, Gets-next}
use cpp_iocplib.Network.Sent.{Writes, send_request-Writes, on_socket_write-Writes}
use cpp_iocplib.Network.Turns.{AllSendable}
use cpp_iocplib.Network.Valid.{Inv, Serves, serve}
use cpp_iocplib.Network.Seen.{Sees, see}

-- The bytes of the operations started come first of those not acknowledged.
started_lem :
    (posted : Bool) (ops : List Operation) (bs : List ℕ)
    → Outstanding posted ops bs
    → (more : List ℕ) × (started ops ++ more ≡ bs)
started_lem posted [] bs o = (bs, refl)
started_lem true (signal ∷ []) bs o = (bs, refl)
started_lem true (write w ∷ []) bs o = ([], append-nil (w ++ []) ∙ append-nil w ∙ o)
started_lem true (signal ∷ op ∷ ops) bs o = absurd o
started_lem true (write w ∷ op ∷ ops) bs o = absurd o
started_lem false (op ∷ ops) bs o = absurd o

regroup :
    (as_ ss ms ks ns cs rs : List ℕ)
    → as_ ++ ss ≡ ns ++ (cs ++ rs)
    → as_ ++ ((ss ++ ms) ++ ks) ≡ ns ++ (cs ++ (rs ++ (ms ++ ks)))
regroup as_ ss ms ks ns cs rs e =
    ap (λ ys. as_ ++ ys) (append_assoc ss ms ks)
    ∙ sym (append_assoc as_ ss (ms ++ ks))
    ∙ ap (λ ys. ys ++ (ms ++ ks)) e
    ∙ append_assoc ns (cs ++ rs) (ms ++ ks)
    ∙ ap (λ ys. ns ++ ys) (append_assoc cs rs (ms ++ ks))

module _ (fb : FlatBuffers) (L : IsLawful fb) (takes : ℕ → ℕ) (sends posts : ℕ → Option ℕ)
    (rounds : ℕ) (id password : List ℕ) (q : AllSendable (all_requests fb L id password))
    (r : AllSendable (all_results fb L id password)) where
  abbrev pub Valid : Network → Type 0
  Valid ν = Inv fb L takes sends posts id password ν

  start-Inv : Valid (start fb takes sends posts id password)
  unfolding start send_login_request Packet.new Packet.clear System.start
  start-Inv =
      let none_sent : Sending Outgoing = record {
        sender = record { send_buffers = []; sending_size = 0 };
        world = record { calls = 0; wire = [] };
        thrown = none;
      } in
      let p =
        Request.bytes_of fb (Request.Content.login_request (until_nul id) (until_nul password)) in
      let (y, run, w) =
        send_request-Writes takes p none_sent [] q.0
          (record { valid = (tt, refl); bytes = refl }) in
      record {
        talk = Conversation.start fb id password;
        reach = Conversation.here;
        x = y;
        half_result = [];
        client = record {
          valid = clear-IsValid Packet.new;
          held = gathered-clear Packet.new;
          state_is = run;
        };
        writes = subst (λ bs. Writes bs y) (sym (append-nil (frame p))) w;
        σ = System.start;
        half_request = [];
        server = record {
          valid = clear-IsValid Packet.new;
          held = gathered-clear Packet.new;
          state_is = refl;
        };
        sender = Sender.start-Inv sends posts;
        accepted = refl;
        up = record {
          left = frame p;
          total = sym (append-nil (frame p));
          rest = sym (append-nil (frame p));
          unfinished = inl refl;
        };
        down = record { left = []; total = refl; rest = refl; unfinished = inl refl };
      }

  -- What the client's socket still holds for the server is the first of what is left.
  pub serve_next :
      (ν : Network) (i : Valid ν) (x : Sending Outgoing) (b : ℕ) (bs rest : List ℕ)
      → ν.client.state ≡ some x
      → x.world.wire ≡ ν.taken ++ ((b ∷ bs) ++ rest)
      → Serves fb L takes sends posts id password ν b bs
  serve_next ν i x b bs rest e w =
      let same : x ≡ i.x = some-injective x i.x (sym e ∙ i.client.state_is) in
      let wire : i.x.world.wire ≡ ν.taken ++ ((b ∷ bs) ++ rest) =
        ap (λ (y : Sending Outgoing). y.world.wire) (sym same) ∙ w in
      serve fb L takes sends posts id password q r ν i b bs (rest ++ pending i.x.sender) (
        Gets-next i.up (b ∷ bs) (rest ++ pending i.x.sender) (
          sym i.writes.bytes
          ∙ ap (λ ys. ys ++ pending i.x.sender) wire
          ∙ append_assoc ν.taken ((b ∷ bs) ++ rest) (pending i.x.sender)
          ∙ ap (λ ys. ν.taken ++ ys) (append_assoc (b ∷ bs) rest (pending i.x.sender))))

  pub see_next :
      (ν : Network) (i : Valid ν) (σ : System) (b : ℕ) (bs rest : List ℕ)
      → ν.server.state ≡ some σ
      → σ.acknowledged ++ started σ.kernel.pending ≡ ν.seen ++ ((b ∷ bs) ++ rest)
      → Sees fb L takes sends posts id password rounds ν b bs
  see_next ν i σ b bs rest e w =
      let same : σ ≡ i.σ = some-injective σ i.σ (sym e ∙ i.server.state_is) in
      let sender : Sender.Inv sends posts σ = subst (Sender.Inv sends posts) (sym same) i.sender in
      let (more, first) = started_lem _ σ.kernel.pending (in_flight σ.sender) sender.outstanding in
      let later = more ++ bytes_of σ.sender.send_queue in
      see fb L takes sends posts id password q r rounds ν i b bs (rest ++ later) (
        Gets-next i.down (b ∷ bs) (rest ++ later) (
          sym i.accepted
          ∙ ap (λ (υ : System). υ.accepted) (sym same)
          ∙ sym sender.total
          ∙ ap (λ ys. σ.acknowledged ++ (ys ++ bytes_of σ.sender.send_queue)) (sym first)
          ∙ regroup σ.acknowledged (started σ.kernel.pending) more (bytes_of σ.sender.send_queue)
              ν.seen (b ∷ bs) rest w))

  Step-Inv : {ν μ : Network} → Step fb takes sends posts (suc rounds) ν μ → Valid ν → Valid μ
  unfolding after_completion
  Step-Inv {ν} (serves x b bs rest s e w run posted) i =
      let (s', run', i') = serve_next ν i x b bs rest e w in
      subst (λ t. Valid (record ν { server = t; taken = ν.taken ++ (b ∷ bs) }))
        (some-injective s' s (sym run' ∙ run)) i'
  Step-Inv {ν} (sees σ b bs rest c e w run) i =
      let (c', run', i') = see_next ν i σ b bs rest e w in
      subst (λ t. Valid (record ν { client = t; seen = ν.seen ++ (b ∷ bs) }))
        (some-injective c' c (sym run' ∙ run)) i'
  Step-Inv {ν} (writes x y e run) i =
      let same : x ≡ i.x = some-injective x i.x (sym e ∙ i.client.state_is) in
      let (y', run', w) =
        on_socket_write-Writes takes x (frames i.talk.requests)
          (subst (Writes (frames i.talk.requests)) (sym same) i.writes) in
      record {
        talk = i.talk;
        reach = i.reach;
        x = y;
        half_result = i.half_result;
        client = record { valid = i.client.valid; held = i.client.held; state_is = refl };
        writes = subst (Writes (frames i.talk.requests)) (some-injective y' y (sym run' ∙ run)) w;
        σ = i.σ;
        half_request = i.half_request;
        server = i.server;
        sender = i.sender;
        accepted = i.accepted;
        up = i.up;
        down = i.down;
      }
  Step-Inv {ν} (completes σ op others error n rest e p small w more) i =
      let same : σ ≡ i.σ = some-injective σ i.σ (sym e ∙ i.server.state_is) in
      record {
        talk = i.talk;
        reach = i.reach;
        x = i.x;
        half_result = i.half_result;
        client = i.client;
        writes = i.writes;
        σ = after_completion sends posts σ op others error n;
        half_request = i.half_request;
        server = record { valid = i.server.valid; held = i.server.held; state_is = refl };
        sender =
            Sender.Step-Inv sends posts (System.completes op others error n p small w)
              (subst (Sender.Inv sends posts) (sym same) i.sender);
        accepted = ap (λ (υ : System). υ.accepted) same ∙ i.accepted;
        up = i.up;
        down = i.down;
      }

  pub Reach-Inv :
      {ν : Network}
      → Reach fb takes sends posts (suc rounds) (start fb takes sends posts id password) ν
      → Valid ν
  Reach-Inv here = start-Inv
  Reach-Inv (next reach s) = Step-Inv s (Reach-Inv reach)
