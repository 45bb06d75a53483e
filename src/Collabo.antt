-- ===== src/Collabo.antt =====
-- Collabo.hpp and Collabo.cpp: the clients of the server, their messages and the streams.
pub mod Clients
pub mod Wire
pub mod Session
pub mod Rights
pub mod Roster
pub mod Stream
pub mod Streams
pub mod Failure
pub mod Streaming
pub mod Running
pub mod Stored
pub mod Images
pub mod Inbox
pub mod Directory
pub mod Sockets
pub mod Sight
pub mod Overlap
pub mod Server
pub mod Kept
pub mod Unique
mod Tests
mod FlowTests
mod ImageTests
