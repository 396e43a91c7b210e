-- ===== src/Tx.antt =====
-- The transmitter library, sw/tx.c and sw/tx.h.
pub mod Memory
pub mod Coder
pub mod Samples
pub mod Mapping
pub mod Frame
mod Tests
