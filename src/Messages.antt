-- ===== src/Messages.antt =====
-- src/proto/messages.ts: the messages of tephra.v1, each with its encoder, the switch of its
-- decoder, and the decoder.
pub mod Sound
pub mod Event
pub mod Query
pub mod Bodies
pub mod Replies
pub mod Status
pub mod Request
pub mod Response
pub mod Format
