-- ===== src/ClientSocket/Stream.antt =====
-- `OnSocketRead` over packets that arrive in pieces, where no chunk holds bytes of two of them.
use cpp_iocplib.Base.{
  ℕ, zero, suc, ◌<◌, true, false, List, [], ◌∷◌, ◌++◌, concat, length, Option, none, some, ◌≡◌, sym,
  ap, ◌∙◌, arith, append-nil, append_assoc,
}
use cpp_iocplib.WinSock.{Result, done}
use cpp_iocplib.Packet.{PacketReceiver, on_receive, is_complete}
use cpp_iocplib.Packet.Valid.{gathered, IsValid}
use cpp_iocplib.Packet.Frame.{frame, IsSendable, Took, on_receive-frame, not_complete-frame}
use cpp_iocplib.ServerSession.Stream.{Arrival, AllNonEmpty, chunks_of, AllWhole, handed_on}
use cpp_iocplib.ClientSocket.{
  Reader, deliver, read_rounds, read_loop, after_read, on_socket_read, continue_with,
}
use cpp_iocplib.ClientSocket.Read.{read_once, read_last}
use cpp_iocplib.Session.Receiver.{socket_buffer_size}

-- A reader that has gathered the bytes given, in the state given.
pub record Gathers {S : Type 0} (bs : List ℕ) (s : S) (c : Reader S) : Type 0 where
  pub valid : IsValid c.packet_receiver
  pub held : gathered c.packet_receiver ≡ bs
  pub state_is : c.state ≡ s

-- From one world to another `Recv` returns these chunks, none of them empty, and then that there is
-- nothing more for now.
pub data Brings {W : Type 0} (recv : ℕ → W → Result (Option (List ℕ)) × W) (w' : W)
    : W → List (List ℕ) → Type 0 where
  nothing : {w : W} → recv socket_buffer_size w ≡ (done none, w') → Brings recv w' w []
  brings :
      {w v : W} (b : ℕ) (bs : List ℕ) {xs : List (List ℕ)}
      → recv socket_buffer_size w ≡ (done (some (b ∷ bs)), v)
      → Brings recv w' v xs
      → Brings recv w' w ((b ∷ bs) ∷ xs)

module _ {S : Type 0} (on_packet : List ℕ → S → S) where
  deliver_nothing :
      (r : PacketReceiver) (s : S)
      → is_complete r ≡ false
      → deliver on_packet r s ≡ record { packet_receiver = r; state = s }
  unfolding deliver
  deliver_nothing r s e = rw e

  -- A chunk that ends before its packet does is gathered.
  pub read_part :
      (p bs chunk : List ℕ) (x : ℕ) (rest : List ℕ) (s : S) (c : Reader S) (rounds : ℕ)
      → IsSendable p
      → Gathers bs s c
      → bs ++ (chunk ++ x ∷ rest) ≡ frame p
      → (c' : Reader S) × (read_rounds on_packet (suc rounds) c chunk (length chunk) ≡ some c')
        × Gathers (bs ++ chunk) s c'
  read_part p bs chunk x rest s c rounds h g e = (
    record { packet_receiver = r'; state = c.state },
    read_once on_packet c chunk (length chunk) rounds took.left
        ∙ ap some
            (deliver_nothing r' c.state (not_complete-frame p r' x rest h took.valid unfinished)),
    record { valid = took.valid; held = took.held ∙ moved; state_is = g.state_is },
  )
    where
      r' : PacketReceiver
      r' = (on_receive c.packet_receiver chunk (length chunk)).1

      moved : gathered c.packet_receiver ++ chunk ≡ bs ++ chunk
      moved = ap (λ ys. ys ++ chunk) g.held

      took :
          Took c.packet_receiver
            (gathered c.packet_receiver ++ chunk)
            (on_receive c.packet_receiver chunk (length chunk))
      took =
          on_receive-frame p c.packet_receiver chunk (x ∷ rest) h g.valid
            (ap (λ ys. ys ++ (chunk ++ x ∷ rest)) g.held ∙ e)

      unfinished : gathered r' ++ x ∷ rest ≡ frame p
      unfinished =
          ap (λ ys. ys ++ x ∷ rest) (took.held ∙ moved) ∙ append_assoc bs chunk (x ∷ rest) ∙ e

  module _ {W : Type 0} (recv : ℕ → W → Result (Option (List ℕ)) × W) (rounds : ℕ) where
    read_loop_chunk :
        (calls b : ℕ) (bs : List ℕ) (c c' : Reader S) (w v : W)
        → recv socket_buffer_size w ≡ (done (some (b ∷ bs)), v)
        → read_rounds on_packet (suc rounds) c (b ∷ bs) (length (b ∷ bs)) ≡ some c'
        → read_loop on_packet recv (suc calls) (suc rounds) c w
          ≡ read_loop on_packet recv calls (suc rounds) c' v
    unfolding read_loop after_read
    read_loop_chunk calls b bs c c' w v e run =
        ap (after_read on_packet (read_loop on_packet recv calls (suc rounds)) (suc rounds) c) e
        ∙ ap (λ o. continue_with (read_loop on_packet recv calls (suc rounds)) o v) run

    read_loop_end :
        (calls : ℕ) (c : Reader S) (w w' : W)
        → recv socket_buffer_size w ≡ (done none, w')
        → read_loop on_packet recv (suc calls) (suc rounds) c w
          ≡ some (record { reader = c; world = w'; thrown = none })
    unfolding read_loop after_read
    read_loop_end calls c w w' e =
        ap (after_read on_packet (read_loop on_packet recv calls (suc rounds)) (suc rounds) c) e

    read_end :
        (p bs x : List ℕ) (s : S) (c : Reader S)
        → IsSendable p
        → Gathers bs s c
        → bs ++ concat (x ∷ []) ≡ frame p
        → (c' : Reader S) × (read_rounds on_packet (suc rounds) c x (length x) ≡ some c')
          × Gathers [] (on_packet p s) c'
    read_end p bs x s c h g e =
        let (c', run, valid, held, state_is) =
          read_last on_packet p bs x c rounds h g.valid g.held
            (ap (λ zs. bs ++ zs) (sym (append-nil x)) ∙ e) in
        (
          c',
          run,
          record { valid = valid; held = held; state_is = state_is ∙ ap (on_packet p) g.state_is },
        )

    -- The loop, where the chunks that come are the rest of a packet and then whole packets.
    read_loop_stream :
        (p bs x : List ℕ) (xs : List (List ℕ)) (as_ : List Arrival) (s : S) (c : Reader S)
        (w w' : W) (calls : ℕ)
        → IsSendable p
        → AllNonEmpty xs
        → AllWhole (λ _. true) on_packet as_
        → Gathers bs s c
        → bs ++ concat (x ∷ xs) ≡ frame p
        → Brings recv w' w ((x ∷ xs) ++ chunks_of as_)
        → length ((x ∷ xs) ++ chunks_of as_) < calls
        → (c' : Reader S) × (read_loop on_packet recv calls (suc rounds) c w
            ≡ some (record { reader = c'; world = w'; thrown = none }))
          × Gathers [] (handed_on (λ _. true) on_packet as_ (on_packet p s)) c'
    read_loop_stream p bs x xs as_ s c w w' zero h n a g e (brings b ys q more) k =
        absurd (omega arith)
    read_loop_stream p bs x [] [] s c w w' (suc zero) h n a g e (brings b ys q more) k =
        absurd (omega arith)
    read_loop_stream p bs x [] [] s c w w' (suc (suc calls)) h n a g e
          (brings {v = v} b ys q (nothing z)) k =
        let (c', run, g') = read_end p bs x s c h g e in
        (c', read_loop_chunk (suc calls) b ys c c' w v q run ∙ read_loop_end calls c' v w' z, g')
    read_loop_stream p bs x [] (a0 ∷ as_) s c w w' (suc calls) h n a g e
          (brings {v = v} b ys q more) k =
        let (c', run, g') = read_end p bs x s c h g e in
        let (c'', run', g'') =
          read_loop_stream a0.packet [] a0.first a0.others as_ (on_packet p s) c' v w' calls a.0.0
            a.0.2 a.1 g' a.0.3 more (omega arith) in
        (c'', read_loop_chunk calls b ys c c' w v q run ∙ run', g'')
    read_loop_stream p bs x ([] ∷ xs) as_ s c w w' (suc calls) h n a g e
          (brings {v = v} b ys q more) k =
        absurd (omega arith)
    read_loop_stream p bs x ((y ∷ z) ∷ xs) as_ s c w w' (suc calls) h n a g e
          (brings {v = v} b ys q more) k =
        let (c', run, g') = read_part p bs x y (z ++ concat xs) s c rounds h g e in
        let (c'', run', g'') =
          read_loop_stream p (bs ++ x) (y ∷ z) xs as_ s c' v w' calls h n.1 a g'
            (append_assoc bs x (y ∷ (z ++ concat xs)) ∙ e) more (omega arith) in
        (c'', read_loop_chunk calls b ys c c' w v q run ∙ run', g'')

    -- A socket that becomes readable: where every packet arrives in chunks of its own and the socket is
    -- read until nothing is left, each packet is handed on whole, once and in the order of arrival,
    -- however the packets are cut, and nothing else; at the end the reader has gathered nothing.
    pub on_socket_read_stream :
        (as_ : List Arrival) (s : S) (c : Reader S) (w w' : W) (calls : ℕ)
        → AllWhole (λ _. true) on_packet as_
        → Gathers [] s c
        → Brings recv w' w (chunks_of as_)
        → length (chunks_of as_) < calls
        → (c' : Reader S) × (on_socket_read on_packet recv calls (suc rounds) 0 c w
            ≡ some (record { reader = c'; world = w'; thrown = none }))
          × Gathers [] (handed_on (λ _. true) on_packet as_ s) c'
    unfolding on_socket_read
    on_socket_read_stream as_ s c w w' zero a g more k = absurd (omega arith)
    on_socket_read_stream [] s c w w' (suc calls) a g (nothing e) k =
        (c, read_loop_end calls c w w' e, g)
    on_socket_read_stream (a0 ∷ as_) s c w w' (suc calls) a g more k =
        read_loop_stream a0.packet [] a0.first a0.others as_ s c w w' (suc calls) a.0.0 a.0.2 a.1 g
          a.0.3 more k
