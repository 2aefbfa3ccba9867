-- ===== src/Lib.antt =====
-- cpp-iocplib: a library of asynchronous sockets over I/O completion ports, and a server and a
-- client that use it.
--
-- A server's acceptor attaches each accepted socket to one completion port, whose workers hand the
-- completions to the session of the socket. The session's receiver reads the socket until it would
-- block and hands each chunk to `OnReceivePacket`, where a packet receiver takes the packets out of
-- the chunks; its sender queues framed buffers, and writes them in one operation at a time. A client
-- reads and writes its socket without blocking, with the same packets.
--
-- The files, and the code that they model:
--   Wire            lib/iocplib/socket_buffer.h: `SocketBuffer`, its framing and `Slice`
--   Packet          lib/iocplib/packet.h: `PacketReceiver`; `IsValid` of Packet/Valid is its
--                   invariant, and `first_packet` of Packet/Frame what a stream promises
--   Session/Sender  lib/iocplib/src/socket_session.cpp: `SessionSender`; Session/Sender/System puts it
--                   among its callers and completions
--   Session/Receiver, Session/Accept
--                   the same file: `SessionReceiver`; `SocketSession`; Session/Receiver/System puts the
--                   receiver among the completions of its receives
--   Acceptor        lib/iocplib/acceptor.h: accepts and their completions, and `Close`; Acceptor/Open
--                   has `Open`
--   Server          lib/iocplib/server_base.h and examples/server/main.cpp
--   Port            lib/iocplib/io_completion_port.h and overlapped.h: the workers' loop, and the port;
--                   Port/Workers has the workers of a port that is closed
--   WinSock         lib/winsocklib/win_sock.h
--   ClientSocket    lib/winsocklib/client_socket.h: the client's reading and sending loops;
--                   ClientSocket/Connection has its Connect and Close
--   IoThread        lib/winsocklib/socket_io_thread.h: the requests, and the events and their maps;
--                   IoThread/Run has the loop of `Run`
--   Tables          the maps of the standard library, as association lists
--   ServerSession   examples/server/client_session.cpp: `OnReceivePacket`; ServerSession/Handlers has
--                   `OnPacket` and the handlers; ServerSession/Received puts the session behind its
--                   receiver
--   ClientSession   examples/client/client_session.cpp
--   Client          examples/client/client.cpp
--   Message         examples/message: the generated headers, of the client's messages and the server's
--   FlatBuffers     what the messages call of examples/flatbuffers, as a record of operations, and
--                   IsLawful of FlatBuffers/Laws, what that library is documented to do
--   Conversation    both sessions over two channels that keep the order of the packets
--   Network         both programs over the byte streams of two sockets: the client's sender and reader, the
--                   server's session and sender, in runs that no exception of the server ends;
--                   Network/Whole has a run of them to the end
--   WinError        the error numbers of the Windows headers
--   Base            shared names, and lemmas on lists and on 32-bit words
-- A definition has the name of the function or type it models, in small letters with underscores;
-- a part of a function is a definition of its own where a theorem speaks of it.
--
-- Numbers are natural; a `uint32_t` sum or difference is taken modulo 2 ^ 32 by `add32` and `sub32`,
-- and bytes are numbers that `decode32` reads as little-endian words. System calls are parameters that
-- act on a world, or are given by their answers; an exception is a result. Each method of a session
-- holds its lock for the whole of its length, so that concurrent calls are a sequence of steps.
--
-- Loops run on fuel. The server's loop is given two rounds more than bytes received, since a round
-- that goes on takes a byte or ends a packet; the client's sending loop is given more calls than
-- bytes to send, since a call takes a byte or ends the loop; the receiver's loop is given more calls
-- than chunks that the socket delivers. The client's reading loop is given any number of rounds for
-- a chunk, and more calls of `Recv` than chunks.
--
-- The library of FlatBuffers is a parameter of the message code: a record of its operations, with the
-- laws of IsLawful, which speak of the objects that a builder holds and that a buffer shows.
-- FlatBuffers/Sample is a library of this kind with a format of its own.
--
-- Not modelled: the copy of the FlatBuffers library in examples/flatbuffers, which is another
-- project's; the standard library and Windows, whose calls are parameters; a second `Close` of an
-- acceptor, whose pointer to the port is null then; the end of the program that an exception causes
-- which leaves a worker's thread.
pub mod Base
pub mod Wire
pub mod Packet
pub mod WinError
pub mod Session
pub mod Port
pub mod WinSock
pub mod ClientSocket
pub mod ServerSession
pub mod IoThread
pub mod Tables
pub mod Acceptor
pub mod FlatBuffers
pub mod Message
pub mod ClientSession
pub mod Conversation
pub mod Server
pub mod Client
pub mod Network
