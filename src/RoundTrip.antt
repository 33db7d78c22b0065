-- ===== src/RoundTrip.antt =====
-- The reader of src/reader.rs on what the writer of src/writer.rs wrote.
pub mod Placeholder
pub mod Entry
pub mod Opening
pub mod Directory
pub mod Archive
pub mod Local
pub mod Payload
pub mod Extract
pub mod Sealed
pub mod Whole
