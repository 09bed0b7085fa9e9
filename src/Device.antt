-- ===== src/Device.antt =====
-- qemu/hw/block/openflash.c, the emulated PCI controller. The definitions stand in State,
-- Transfer, Execute, Doorbell, Mmio and Realize; the other children prove them correct.
pub mod State
pub mod Transfer
pub mod Execute
pub mod Doorbell
pub mod Mmio
pub mod Realize
pub mod Bounds
pub mod Invariant
pub mod Round
pub mod Drained
pub mod Progress
pub mod Hang
pub mod Contents
pub mod Store
pub mod Statuses
pub mod Wrap
pub mod Scatter
pub mod Registers
pub mod Durable
