-- ===== src/System/Sealed.antt =====
-- Complete streams stay complete: the chunks that `CompleteMediaStream` counted are the stream's
-- chunks ever after, until the incident's metadata is pruned.
pub mod Defs
pub mod Uploads
pub mod Completion
pub mod Pruning
pub mod Run
pub mod Contiguous
pub mod Accepts
