-- ===== src/Sched.antt =====
-- The package edgerag/sched: the life of a request, and what runs next. No tensors here either.
pub mod Request
pub mod Scheduler
pub mod Samples
mod Tests
