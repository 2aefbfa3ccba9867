-- ===== src/Session.antt =====
-- lib/iocplib/socket_session.h and src/socket_session.cpp: a connection's sender and receiver.
pub mod Sender
pub mod Receiver
pub mod Accept
