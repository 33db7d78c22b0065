-- ===== src/Tests.antt =====
-- Concrete packages and inputs, and the theorems on them.
pub mod Toy
pub mod Absent
pub mod Formats
pub mod Ciphers
pub mod Sessions
pub mod Locked
pub mod Stats
pub mod Parallel
pub mod Cloud
pub mod Seekless
pub mod Async
pub mod Streams
