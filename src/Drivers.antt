-- ===== src/Drivers.antt =====
-- kernel/src/drivers: one module for each driver.
pub mod Keyboard
pub mod Pci
pub mod Usb
pub mod Sdr
