-- ===== src/Driver.antt =====
-- The kernel driver, boot/baseband/baseband.c.
pub mod Regs
pub mod World
pub mod Dma
pub mod Ends
pub mod Transfer
pub mod Ioctl
pub mod Deadlock
pub mod Probe
mod Tests
