-- ===== src/Drivers/Usb/Xhci.antt =====
-- kernel/src/drivers/usb/xhci.rs, over memory-mapped registers as a parameter: each read and each
-- write in the source is one access. The three register blocks are `repr(C)`.
pub mod Start
pub mod Ports
use Prim.Native.String.{String}
use aetherion_os.Base.{
  ℕ, zero, suc, ◌+◌, ◌*◌, ◌/◌, ◌%◌, ◌^◌, leb, ◌==◌, ◌!=◌, not, Bool, true, false, if◌then◌else◌,
  Option, none, some, List, [], ◌∷◌, ◌++◌, bit_and, bit_or,
}
use aetherion_os.Base.Action.{◌>>=◌, ◌>>◌, pure}
use aetherion_os.Base.Fallible.{Result, ok, err}
use aetherion_os.Base.Word.{add_usize, mul_usize, not_u32}
use aetherion_os.Drivers.Pci.Device.{PciDevice}
use aetherion_os.Drivers.Usb.Descriptor.{UsbDevice}

-- The registers at their addresses. A read may change them, as time passes.
pub record Mmio : Type 1 where
  pub Regs : Type 0
  pub read_u8 : ℕ → Regs → ℕ × Regs
  pub read_u32 : ℕ → Regs → ℕ × Regs
  pub write_u32 : ℕ → ℕ → Regs → Regs

abbrev pub Access : Mmio → Type 0 → Type 0
Access mmio A = mmio.Regs → A × mmio.Regs

-- The pointers are kept as addresses.
pub record XhciController : Type 0 where
  pub base_addr : ℕ
  pub cap_regs : ℕ
  pub op_regs : ℕ
  pub port_regs : ℕ
  pub max_ports : ℕ
  pub devices : List UsbDevice

-- `caplength` is the first byte of `XhciCapRegs`, and `hcsparams1` follows four bytes.
abbrev pub caplength_at : ℕ → ℕ
caplength_at cap_regs = cap_regs

abbrev pub hcsparams1_at : ℕ → ℕ
hcsparams1_at cap_regs = add_usize cap_regs 4

-- `usbcmd` and `usbsts` of `XhciOpRegs`
abbrev pub usbcmd_at : ℕ → ℕ
usbcmd_at op_regs = op_regs

abbrev pub usbsts_at : ℕ → ℕ
usbsts_at op_regs = add_usize op_regs 4

-- `(*self.port_regs.add(port)).portsc`; an `XhciPortReg` is four `u32`s.
abbrev pub portsc_at : ℕ → ℕ → ℕ
portsc_at port_regs port = add_usize port_regs (mul_usize port 16)

pub placeholder : UsbDevice
placeholder = record {
  vendor_id = 0x046d;
  product_id = 0xc534;
  device_class = 0x03;
  device_subclass = 0x01;
  protocol = 0x01;
  max_packet_size = 8;
  manufacturer = 1;
  product = 2;
  serial_number = 0;
}

module _ (mmio : Mmio) where
  abbrev pub write_u32 : ℕ → ℕ → Access mmio (Unit {0})
  write_u32 a v regs = (tt, mmio.write_u32 a v regs)

  pub new : PciDevice → Access mmio (Result XhciController)
  new pci_device =
      let base_addr = pci_device.bar0 in
      if base_addr == 0 then pure (err "Invalid XHCI base address") else (do
        caplength ← mmio.read_u8 (caplength_at base_addr)
        hcsparams1 ← mmio.read_u32 (hcsparams1_at base_addr)
        pure (
            ok (record {
              base_addr = base_addr;
              cap_regs = base_addr;
              op_regs = add_usize base_addr caplength;
              port_regs = add_usize (add_usize base_addr caplength) 0x400;
              max_ports = hcsparams1 / 2 ^ 24 % 256;
              devices = [];
            })))

  pub is_port_connected : XhciController → ℕ → Access mmio Bool
  is_port_connected c port =
      if leb c.max_ports port
      then pure false
      else (do portsc ← mmio.read_u32 (portsc_at c.port_regs port); pure (bit_and portsc 0x1 != 0))

  -- `for _ in 0..1000`, with the rounds left.
  pub wait_reset : ℕ → ℕ → Access mmio (Unit {0})
  wait_reset zero a = pure tt
  wait_reset (suc left) a = do
    portsc ← mmio.read_u32 a
    elim (bit_and portsc (2 ^ 4) == 0) [ true ↦ pure tt | false ↦ wait_reset left a ]

  pub reset_port : XhciController → ℕ → Access mmio (Result (Unit {0}))
  unfolding wait_reset
  reset_port c port = if leb c.max_ports port then pure (err "Invalid port number") else (do
    portsc ← mmio.read_u32 (portsc_at c.port_regs port)
    write_u32 (portsc_at c.port_regs port) (bit_or portsc (2 ^ 4))
    wait_reset 1000 (portsc_at c.port_regs port)
    pure (ok tt))

  -- `self.reset_port(port)?` and the device.
  pub after_reset : Result (Unit {0}) → Access mmio (Result UsbDevice)
  unfolding placeholder
  after_reset (ok _) = pure (ok placeholder)
  after_reset (err message) = pure (err message)

  pub probe_device : XhciController → ℕ → Access mmio (Result UsbDevice)
  unfolding after_reset
  probe_device c port = do
    connected ← is_port_connected c port
    if not connected
        then pure (err "No device connected")
        else (do r ← reset_port c port; after_reset r)

  -- `while (usbsts & 1) == 0 {}` on fuel; `none` when the fuel has run out.
  pub wait_halted : ℕ → ℕ → Access mmio (Option (Unit {0}))
  wait_halted zero op_regs = pure none
  wait_halted (suc fuel) op_regs = do
    usbsts ← mmio.read_u32 (usbsts_at op_regs)
    elim (bit_and usbsts 0x1 == 0) [ true ↦ wait_halted fuel op_regs | false ↦ pure (some tt) ]

  -- `while (usbcmd & 2) != 0 {}`
  pub wait_ready : ℕ → ℕ → Access mmio (Option (Unit {0}))
  wait_ready zero op_regs = pure none
  wait_ready (suc fuel) op_regs = do
    usbcmd ← mmio.read_u32 (usbcmd_at op_regs)
    elim (bit_and usbcmd 0x2 != 0) [ true ↦ wait_ready fuel op_regs | false ↦ pure (some tt) ]

  -- `usbcmd = f(usbcmd)`
  abbrev pub update_command : ℕ → (ℕ → ℕ) → Access mmio (Unit {0})
  update_command op_regs f = do
    usbcmd ← mmio.read_u32 (usbcmd_at op_regs)
    write_u32 (usbcmd_at op_regs) (f usbcmd)

  abbrev pub run_command : ℕ → Option (Unit {0}) → Access mmio (Option (Result (Unit {0})))
  run_command op_regs none = pure none
  run_command op_regs (some _) = do
    update_command op_regs (λ usbcmd. bit_or usbcmd 0x1)
    pure (some (ok tt))

  abbrev pub reset_command : ℕ → ℕ → Option (Unit {0}) → Access mmio (Option (Result (Unit {0})))
  reset_command fuel op_regs none = pure none
  reset_command fuel op_regs (some _) = do
    update_command op_regs (λ usbcmd. bit_or usbcmd 0x2)
    ready ← wait_ready fuel op_regs
    run_command op_regs ready

  -- `init`, with the fuel of its two waits; `none` while it still waits.
  pub init : ℕ → XhciController → Access mmio (Option (Result (Unit {0})))
  init fuel c = do
    update_command c.op_regs (λ usbcmd. bit_and usbcmd (not_u32 0x1))
    halted ← wait_halted fuel c.op_regs
    reset_command fuel c.op_regs halted

  -- `if let Ok(device) = … { self.devices.push(device) }`
  abbrev pub push_ok : List UsbDevice → Result UsbDevice → List UsbDevice
  push_ok devices (ok device) = devices ++ (device ∷ [])
  push_ok devices (err message) = devices

  -- The body of the loop over the ports.
  pub visit_port : XhciController → ℕ → List UsbDevice → Access mmio (List UsbDevice)
  visit_port c port devices = do
    connected ← is_port_connected c port
    if connected then (do r ← probe_device c port; pure (push_ok devices r)) else pure devices

  -- `for port in 0..self.max_ports`, with the rounds left.
  pub visit_ports : XhciController → ℕ → ℕ → List UsbDevice → Access mmio (List UsbDevice)
  visit_ports c zero port devices = pure devices
  visit_ports c (suc left) port devices = do
    devices' ← visit_port c port devices
    visit_ports c left (port + 1) devices'

  pub enumerate_devices : XhciController → Access mmio (Result (List UsbDevice) × XhciController)
  enumerate_devices c = do
    devices ← visit_ports c c.max_ports 0 []
    pure (ok devices, record c { devices = devices })

-- `read` and `write` are not implemented.
pub read : XhciController → ℕ → ℕ → List ℕ → Result ℕ
read c device_id endpoint buffer = err "Not implemented"

pub write : XhciController → ℕ → ℕ → List ℕ → Result (Unit {0})
write c device_id endpoint bytes = err "Not implemented"
