-- ===== src/Serve.antt =====
-- The package edgerag/serve: the engine's thread and its streams, and the batches that it executes.
pub mod Engine
pub mod Executor
mod Tests
