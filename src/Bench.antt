-- ===== src/Bench.antt =====
-- The directory bench: how answers are scored.
pub mod Metrics
mod Tests
