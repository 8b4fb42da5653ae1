-- ===== src/Queue.antt =====
-- internal/platform/queue: the job queue on a Valkey stream with a consumer group.
pub mod Failure
pub mod Job
pub mod Consumer
pub mod Stream
