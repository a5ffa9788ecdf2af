-- ===== src/System/Sharing.antt =====
-- Contact keys, grants and wrapped keys over any sequence of calls, those on incidents included.
pub mod Frame
pub mod Keys
pub mod Uses
pub mod Grants
pub mod Delivered
