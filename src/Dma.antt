-- ===== src/Dma.antt =====
-- driver/axidma_dma.c: the definitions in `Engine`, `Transfers` and `Control`, the proofs in the
-- other modules.
pub mod Engine
pub mod Transfers
pub mod Control
pub mod Safety
pub mod Buffers
pub mod Frames
pub mod Video
pub mod Errors
pub mod Faults
pub mod Overruns
pub mod Memory
