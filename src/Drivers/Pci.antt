-- ===== src/Drivers/Pci.antt =====
-- kernel/src/drivers/pci/mod.rs: the PCI bus, over port input and output as a parameter.
pub mod Config
pub mod Device
pub mod Names
pub mod Scan
pub mod Address
pub mod Host
pub mod Read
pub mod Found
pub mod Locations
pub mod Writes
pub mod Bars
pub mod Search
mod Tests
