-- ===== src/Drivers/Usb.antt =====
-- kernel/src/drivers/usb: descriptors, the HID keyboard and mouse, and the XHCI controller.
pub mod Descriptor
pub mod Hid
pub mod Mouse
pub mod Xhci
mod Tests
