-- ===== src/Timer.antt =====
-- Timers: include/liteim/timer and src/timer.
pub mod TimerHeap
mod Tests
