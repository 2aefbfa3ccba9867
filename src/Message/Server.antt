-- ===== src/Message/Server.antt =====
-- examples/message/server_message_generated.h: the messages of the server.
pub mod Kinds
pub mod Read
pub mod Build
pub mod Built
pub mod Laws
