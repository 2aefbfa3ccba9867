-- ===== src/Message/Client.antt =====
-- examples/message/client_message_generated.h: the messages of the client.
pub mod Kinds
pub mod Read
pub mod Build
pub mod Built
pub mod Laws
