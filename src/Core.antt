-- ===== src/Core.antt =====
-- The package edgerag/core, without its tensors: the shape of a model, the arithmetic of its memory,
-- and the packing of quantised weights.
pub mod Spec
pub mod Budget
pub mod Quant
mod Tests
