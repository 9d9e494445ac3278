-- ===== src/Concurrency.antt =====
-- include/liteim/concurrency and src/concurrency.
pub mod ThreadPool
mod Tests
