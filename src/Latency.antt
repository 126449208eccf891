-- ===== src/Latency.antt =====
-- The latency kernels of OptaneStudy/src/common.h.
pub mod Macros
pub mod Bytes64
pub mod Bytes128
pub mod Bytes256
pub mod Bytes256Movq
pub mod Tables
pub mod Timing
pub mod Tasks
pub mod Labels
pub mod Settled
pub mod Stained
pub mod Saved
