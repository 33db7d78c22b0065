-- ===== src/Cloud/S3.antt =====
-- src/cloud/s3.rs: `S3ZipWriter`, its builder's limits, and the worker that uploads the parts. The
-- service is a parameter with its documented behaviour; the clients that the builder makes, the bucket
-- and the key are part of it.
pub mod Writer
pub mod Worker
pub mod Parts
pub mod Reader
