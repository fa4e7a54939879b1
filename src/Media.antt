-- ===== src/Media.antt =====
-- internal/media, and the worker's handler of its jobs (internal/worker/media.go).
pub mod Repository
pub mod Service
pub mod Changes
pub mod Claims
pub mod Exclusive
pub mod Preview
pub mod Keys
pub mod Readable
pub mod Download
pub mod Results
pub mod Downloaded
pub mod Settled
