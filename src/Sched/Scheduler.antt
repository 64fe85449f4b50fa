-- ===== src/Sched/Scheduler.antt =====
-- edgerag/sched/scheduler.py, in parts: the state, the decision, the bookkeeping, the pressure, and
-- what is proved of them.
pub mod State
pub mod Admission
pub mod Progress
pub mod Pressure
pub mod Queues
pub mod Selection
pub mod Fifo
pub mod Backing
pub mod Release
pub mod StopRule
pub mod Tokens
pub mod Requeue
pub mod Eviction
pub mod SelfEviction
pub mod Starvation
pub mod Planned
