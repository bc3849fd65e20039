-- ===== src/Drivers/Usb/Mouse.antt =====
-- kernel/src/drivers/usb/hid.rs: the mouse. The report is whatever stands in the buffer.
pub mod Motion
use aetherion_os.Base.{ℕ, Run, done, ◌>>=◌, List, at, replicate}
use aetherion_os.Base.Fallible.{Result, ok}
use aetherion_os.Base.Int.{ℤ, pos, as_i8, saturating_add}
use aetherion_os.Drivers.Usb.Descriptor.{UsbDevice}

pub record UsbMouse : Type 0 where
  pub device : UsbDevice
  pub endpoint : ℕ
  pub buffer : List ℕ
  pub x : ℤ
  pub y : ℤ
  pub buttons : ℕ

pub new : UsbDevice → ℕ → UsbMouse
new device endpoint = record {
  device = device;
  endpoint = endpoint;
  buffer = replicate 4 0;
  x = pos 0;
  y = pos 0;
  buttons = 0;
}

pub poll : UsbMouse → Run (Result (Unit {0}) × UsbMouse)
poll m = do
  buttons ← at m.buffer 0
  dx ← at m.buffer 1
  dy ← at m.buffer 2
  let x = saturating_add m.x (as_i8 dx)
  let y = saturating_add m.y (as_i8 dy)
  done (ok tt, record m { buttons = buttons; x = x; y = y })
