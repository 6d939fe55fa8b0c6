-- ===== src/Worker.antt =====
-- The worker (worker/src): its repository, its processor and its Kafka consumer.
pub mod Results
pub mod Processor
pub mod Consumer
pub mod ExactlyOnce
pub mod Failures
pub mod LateFailure
pub mod Counters
pub mod Analyzer
pub mod Tasks
pub mod Heartbeats
mod Samples
mod Tests
