-- ===== src/Io.antt =====
-- include/co_net/io: tokens, submissions, the ring and its buffers.
pub mod Token
pub mod Sqe
pub mod World
pub mod Ring
pub mod Handler
pub mod Await
pub mod Buffer
pub mod Setup
pub mod Stream
pub mod Tickets
