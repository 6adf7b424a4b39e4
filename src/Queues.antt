-- ===== src/Queues.antt =====
-- How the server paces, retries and bounds its work: server/src/concurrency-limiter.ts,
-- server/src/diagnosis-throttle.ts, server/src/retry-pacer.ts and server/src/durable-write-queue.ts.
pub mod Limiter
pub mod Throttle
pub mod Durable
