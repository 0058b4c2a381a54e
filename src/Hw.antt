-- ===== src/Hw.antt =====
-- kernel/src/hw: the devices.
pub mod Devman
pub mod Pci
pub mod Ports
pub mod Pic
pub mod Kb
pub mod Ps2
