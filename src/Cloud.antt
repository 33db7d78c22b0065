-- ===== src/Cloud.antt =====
-- src/cloud: the writers and the reader that work on an object of a storage service.
pub mod Task
pub mod S3
pub mod Gcs
