-- ===== src/Protocol.antt =====
-- kazoo/protocol/serialization.py: what is written to and read from the socket.
pub mod Reader
pub mod Strings
pub mod Records
pub mod Requests
pub mod Multi
pub mod Replies
