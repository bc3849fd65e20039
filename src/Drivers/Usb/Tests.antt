-- ===== src/Drivers/Usb/Tests.antt =====
-- The USB drivers on concrete hardware and reports.
use aetherion_os.Base.{
  ℕ, ◌-◌, ◌≡◌, ◌==◌, ◌||◌, not, refl, arith, inl, inr, if◌then◌else◌, Bool, bit_and, List, [], ◌∷◌,
  done, Returns, some,
}
use aetherion_os.Base.Fallible.{ok, err}
use aetherion_os.Base.Int.{pos}
use aetherion_os.Drivers.Usb.Descriptor.{UsbDevice, init}
use aetherion_os.Drivers.Usb.Hid.{UsbKeyboard, poll}
use aetherion_os.Drivers.Usb.Hid.Keys.{typed, shift_of, polled_state, poll-typed}
use aetherion_os.Drivers.Usb.Mouse.{UsbMouse}
use aetherion_os.Drivers.Usb.Mouse as Mouse
use aetherion_os.Drivers.Usb.Mouse.Motion.{Polled, poll-Polled}
use aetherion_os.Drivers.Usb.Xhci.{Mmio, XhciController, placeholder, enumerate_devices, portsc_at}
use aetherion_os.Drivers.Usb.Xhci as Xhci
use aetherion_os.Drivers.Usb.Xhci.Start.{Answers, started, stopping, resetting, settle, init_starts}
use aetherion_os.Drivers.Usb.Xhci.Ports.{Steady, found, enumerate_devices_finds}

abbrev device : UsbDevice
device = record {
  vendor_id = 0x046d;
  product_id = 0xc534;
  device_class = 0x03;
  device_subclass = 0x01;
  protocol = 0x01;
  max_packet_size = 8;
  manufacturer = 1;
  product = 2;
  serial_number = 0;
}

-- Left Shift, A, which was down before, and B.
abbrev keyboard : UsbKeyboard
keyboard = record {
  device = device;
  endpoint = 1;
  buffer = 0x02 ∷ 0 ∷ 0x04 ∷ 0x05 ∷ 0 ∷ 0 ∷ 0 ∷ 0 ∷ [];
  modifiers = 0;
  last_keys = 0x04 ∷ 0 ∷ 0 ∷ 0 ∷ 0 ∷ 0 ∷ [];
}

abbrev keys : List ℕ
keys = 0x04 ∷ 0x05 ∷ 0 ∷ 0 ∷ 0 ∷ 0 ∷ []

poll-typed_example :
    (poll keyboard
      ≡ done (typed (shift_of 0x02) keyboard.last_keys keys, polled_state keyboard 0x02 keys))
    × (poll (polled_state keyboard 0x02 keys) ≡ done ([], polled_state keyboard 0x02 keys))
poll-typed_example = poll-typed keyboard 0x02 0 keys refl refl

capital_b : typed (shift_of 0x02) keyboard.last_keys keys ≡ 66 ∷ []
unfolding typed
capital_b = refl

abbrev mouse : UsbMouse
mouse = record {
  device = device;
  endpoint = 1;
  buffer = 1 ∷ 10 ∷ 0xFE ∷ 0 ∷ [];
  x = pos 32760;
  y = pos 1;
  buttons = 0;
}

poll-Polled_example : Returns (Mouse.poll mouse) (Polled mouse 1 10 0xFE)
poll-Polled_example = poll-Polled mouse 1 10 0xFE 0 refl

-- Nothing is found, so the start always fails.
init_fails : init ≡ err "No USB controllers found"
unfolding init
init_fails = refl

abbrev controller : XhciController
controller = record {
  base_addr = 0x1000;
  cap_regs = 0x1000;
  op_regs = 0x1020;
  port_regs = 0x1420;
  max_ports = 4;
  devices = [];
}

-- A controller that takes two reads to halt, and two to reset.
abbrev slow : Mmio
slow = record {
  Regs = ℕ × ℕ;
  read_u8 = λ a regs. (0, regs);
  read_u32 = λ a regs.
      if a == 0x1020
      then (if regs.1 == 0 then 0 else regs.0, (regs.0, regs.1 - 1))
      else (if regs.1 == 0 then 1 else 0, (regs.0, regs.1 - 1));
  write_u32 = λ a v regs. (v, 2);
}

halts :
    Answers slow
      (Xhci.usbsts_at 0x1020)
      (λ usbsts. not (bit_and usbsts 0x1 == 0))
      3
      (stopping slow controller (1, 0))
halts = inr (inr (inl refl))

resets :
    Answers slow
      (Xhci.usbcmd_at 0x1020)
      (λ usbcmd. bit_and usbcmd 0x2 == 0)
      3
      (resetting slow controller 3 (1, 0))
unfolding resetting settle
resets = inr (inr (inl refl))

init_starts_example :
    Xhci.init slow 3 controller (1, 0) ≡ (some (ok tt), started slow controller 3 3 (1, 0))
init_starts_example =
    init_starts slow controller 3 3 3 (1, 0) halts resets (omega arith) (omega arith)

-- Devices on ports 0 and 2.
abbrev wired : Mmio
wired = record {
  Regs = Unit {0};
  read_u8 = λ a regs. (0, regs);
  read_u32 = λ a regs. (if a == 0x1420 || a == 0x1440 then 1 else 0, regs);
  write_u32 = λ a v regs. regs;
}

abbrev wiring : ℕ → Bool
wiring port = not (
    bit_and (if portsc_at 0x1420 port == 0x1420 || portsc_at 0x1420 port == 0x1440 then 1 else 0)
      0x1
    == 0)

wired_steady : Steady wired controller wiring
wired_steady = record {
  Good = λ regs. Unit {0};
  status = λ regs port g. refl;
  read_keeps = λ regs a g. tt;
  write_keeps = λ regs a v g. tt;
}

enumerate_devices_finds_example : (enumerate_devices wired controller tt).0 ≡ (
  ok (found wiring controller.max_ports 0),
  record controller { devices = found wiring controller.max_ports 0 },
)
unfolding wired_steady
enumerate_devices_finds_example = enumerate_devices_finds wired controller wiring wired_steady tt tt

two_devices : found wiring 4 0 ≡ placeholder ∷ placeholder ∷ []
unfolding found
two_devices = refl
