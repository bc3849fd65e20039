-- ===== src/Drivers/Pci/Scan.antt =====
-- The scan of kernel/src/drivers/pci/mod.rs, the searches on its result, and `init`.
use Prim.Native.String.{String}
use aetherion_os.Base.{
  ℕ, zero, suc, ◌+◌, ◌%◌, ◌==◌, ◌!=◌, ◌&&◌, Bool, if◌then◌else◌, Option, none, some, List, [], ◌∷◌,
  ◌++◌, bit_and, bit_or,
}
use aetherion_os.Base.Action.{◌>>=◌, pure}
use aetherion_os.Drivers.Pci.Config.{PortIo, Io, read_config_word, write_config_word}
use aetherion_os.Drivers.Pci.Device.{
  PciDevice, UsbControllerType, uhci, ohci, ehci, xhci, usb4, usb_device, new, is_usb_controller,
  usb_controller_type,
}
use aetherion_os.Drivers.Pci.Names.{device_name}

-- `if let Some(d) = found { devices.push(d) }`
abbrev pub push_found : List PciDevice → Option PciDevice → List PciDevice
push_found devices none = devices
push_found devices (some d) = devices ++ (d ∷ [])

abbrev pub select : {A : Type 0} → (A → Bool) → List A → List A
select test [] = []
select test (x ∷ xs) = if test x then x ∷ select test xs else select test xs

abbrev pub find : {A : Type 0} → (A → Bool) → List A → Option A
find test [] = none
find test (x ∷ xs) = if test x then some x else find test xs

module _ (io : PortIo) where
  -- `for function in ..8`, with the rounds left.
  unfoldable pub scan_functions : ℕ → ℕ → ℕ → ℕ → List PciDevice → Io io (List PciDevice)
  scan_functions bus device zero function devices = pure devices
  scan_functions bus device (suc left) function devices = do
    found ← new io bus device function
    scan_functions bus device left (function + 1) (push_found devices found)

  -- What the code does once function 0 has been read.
  unfoldable pub scan_found : ℕ → ℕ → List PciDevice → Option PciDevice → Io io (List PciDevice)
  unfolding scan_functions
  scan_found bus device devices none = pure devices
  scan_found bus device devices (some d) =
      if bit_and d.header_type 0x80 != 0
      then scan_functions bus device 7 1 (devices ++ (d ∷ []))
      else pure (devices ++ (d ∷ []))

  -- `for device in 0..32`
  unfoldable pub scan_devices : ℕ → ℕ → ℕ → List PciDevice → Io io (List PciDevice)
  unfolding scan_found
  scan_devices bus zero device devices = pure devices
  scan_devices bus (suc left) device devices = do
    found ← new io (bus % 256) (device % 256) 0
    devices' ← scan_found (bus % 256) (device % 256) devices found
    scan_devices bus left (device + 1) devices'

  -- `for bus in 0..256`
  unfoldable pub scan_buses : ℕ → ℕ → List PciDevice → Io io (List PciDevice)
  unfolding scan_devices
  scan_buses zero bus devices = pure devices
  scan_buses (suc left) bus devices = do
    devices' ← scan_devices bus 32 0 devices
    scan_buses left (bus + 1) devices'

  unfoldable pub scan_bus : Io io (List PciDevice)
  scan_bus = scan_buses 256 0 []

  unfoldable pub scan_usb_controllers : Io io (List PciDevice)
  scan_usb_controllers = do devices ← scan_bus; pure (select is_usb_controller devices)

  unfoldable pub find_device : ℕ → ℕ → Io io (Option PciDevice)
  find_device vendor_id device_id = do
    devices ← scan_bus
    pure (find (λ d. d.vendor_id == vendor_id && d.device_id == device_id) devices)

  unfoldable pub find_devices_by_class : ℕ → Io io (List PciDevice)
  find_devices_by_class class_code = do
    devices ← scan_bus
    pure (select (λ d. d.class_code == class_code) devices)

  -- The read, `|` and write that the four switches of the command register share.
  abbrev pub set_command : PciDevice → ℕ → Io io (Unit {0})
  set_command device bits = do
    command ← read_config_word io device.bus device.device device.function 0x04
    write_config_word io device.bus device.device device.function 0x04 (bit_or command bits)

  unfoldable pub enable_bus_mastering : PciDevice → Io io (Unit {0})
  enable_bus_mastering device = set_command device 0x04

  unfoldable pub enable_memory_space : PciDevice → Io io (Unit {0})
  enable_memory_space device = set_command device 0x02

  unfoldable pub enable_io_space : PciDevice → Io io (Unit {0})
  enable_io_space device = set_command device 0x01

  unfoldable pub disable_interrupts : PciDevice → Io io (Unit {0})
  disable_interrupts device = set_command device 0x0400

-- The line that `init` prints for the type of a USB controller.
unfoldable pub type_line : Option UsbControllerType → List String
type_line none = []
type_line (some xhci) = "[PCI]     Type: XHCI (USB 3.0+)\n" ∷ []
type_line (some ehci) = "[PCI]     Type: EHCI (USB 2.0)\n" ∷ []
type_line (some uhci) = "[PCI]     Type: UHCI (USB 1.0)\n" ∷ []
type_line (some ohci) = "[PCI]     Type: OHCI (USB 1.1)\n" ∷ []
type_line (some usb4) = "[PCI]     Type: Other USB\n" ∷ []
type_line (some usb_device) = "[PCI]     Type: Other USB\n" ∷ []

unfoldable pub usb_lines : List PciDevice → List String
unfolding type_line
usb_lines [] = []
usb_lines (d ∷ ds) =
    ("[PCI]   USB: " ∷ device_name d ∷ "\n" ∷ type_line (usb_controller_type d)) ++ usb_lines ds

unfoldable pub name_lines : List PciDevice → List String
name_lines [] = []
name_lines (d ∷ ds) = "\n[PCI]   " ∷ device_name d ∷ name_lines ds

unfoldable pub report : List PciDevice → List String
unfolding usb_lines name_lines
report devices =
    let usb_controllers = select is_usb_controller devices in
    let network_controllers = select (λ (d : PciDevice). d.class_code == 0x02) devices in
    let storage_controllers = select (λ (d : PciDevice). d.class_code == 0x01) devices in
    ("[PCI] Initializing PCI bus...\n" ∷ "[PCI] Found " ∷ " PCI device(s)\n" ∷ "[PCI] Found "
      ∷ " USB controller(s)\n" ∷ [])
    ++ (usb_lines usb_controllers
        ++ (("[PCI] Network controllers: " ∷ name_lines network_controllers)
            ++ (("\n" ∷ "[PCI] Storage controllers: " ∷ name_lines storage_controllers)
                ++ ("\n" ∷ []))))

-- `init`: the devices, and what it prints.
unfoldable pub init : (io : PortIo) → Io io (List PciDevice × List String)
unfolding report
init io = do devices ← scan_bus io; pure (devices, report devices)
