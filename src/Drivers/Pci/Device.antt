-- ===== src/Drivers/Pci/Device.antt =====
-- The device of kernel/src/drivers/pci/mod.rs, what its class codes say, and its BARs.
use aetherion_os.Base.{
  ℕ, ◌/◌, ◌^◌, ◌==◌, ◌!=◌, ◌&&◌, not, Bool, if◌then◌else◌, Option, none, some, bit_and,
}
use aetherion_os.Base.Word.{not_u32}
use aetherion_os.Base.Action.{◌>>=◌, pure}
use aetherion_os.Drivers.Pci.Config.{
  PortIo, Io, read_config_byte, read_config_word, read_config_dword,
}

pub record PciDevice : Type 0 where
  pub bus : ℕ
  pub device : ℕ
  pub function : ℕ
  pub vendor_id : ℕ
  pub device_id : ℕ
  pub class_code : ℕ
  pub subclass : ℕ
  pub prog_if : ℕ
  pub revision_id : ℕ
  pub header_type : ℕ
  pub bar0 : ℕ
  pub bar1 : ℕ
  pub bar2 : ℕ
  pub bar3 : ℕ
  pub bar4 : ℕ
  pub bar5 : ℕ
  pub interrupt_line : ℕ
  pub interrupt_pin : ℕ

pub data UsbControllerType : Type 0 where
  uhci : UsbControllerType
  ohci : UsbControllerType
  ehci : UsbControllerType
  xhci : UsbControllerType
  usb4 : UsbControllerType
  usb_device : UsbControllerType

pub data MemoryType : Type 0 where
  bit32 : MemoryType
  bit64 : MemoryType

-- `MemorySpace` holds the address, the memory type and whether it is prefetchable.
pub data BarType : Type 0 where
  io_space : ℕ → BarType
  memory_space : ℕ → MemoryType → Bool → BarType

-- `PciDevice::new` from the vendor on.
unfoldable pub read_device : (io : PortIo) → ℕ → ℕ → ℕ → ℕ → Io io (Option PciDevice)
read_device io bus device function vendor_id = do
  device_id ← read_config_word io bus device function 0x02
  revision_id ← read_config_byte io bus device function 0x08
  prog_if ← read_config_byte io bus device function 0x09
  subclass ← read_config_byte io bus device function 0x0A
  class_code ← read_config_byte io bus device function 0x0B
  header_type ← read_config_byte io bus device function 0x0E
  bar0 ← read_config_dword io bus device function 0x10
  bar1 ← read_config_dword io bus device function 0x14
  bar2 ← read_config_dword io bus device function 0x18
  bar3 ← read_config_dword io bus device function 0x1C
  bar4 ← read_config_dword io bus device function 0x20
  bar5 ← read_config_dword io bus device function 0x24
  interrupt_line ← read_config_byte io bus device function 0x3C
  interrupt_pin ← read_config_byte io bus device function 0x3D
  pure (
      some (record {
        bus = bus;
        device = device;
        function = function;
        vendor_id = vendor_id;
        device_id = device_id;
        class_code = class_code;
        subclass = subclass;
        prog_if = prog_if;
        revision_id = revision_id;
        header_type = header_type;
        bar0 = bar0;
        bar1 = bar1;
        bar2 = bar2;
        bar3 = bar3;
        bar4 = bar4;
        bar5 = bar5;
        interrupt_line = interrupt_line;
        interrupt_pin = interrupt_pin;
      }))

unfoldable pub new : (io : PortIo) → ℕ → ℕ → ℕ → Io io (Option PciDevice)
unfolding read_device
new io bus device function = do
  vendor_id ← read_config_word io bus device function 0x00
  if vendor_id == 0xFFFF then pure none else read_device io bus device function vendor_id

unfoldable pub is_usb_controller : PciDevice → Bool
is_usb_controller d = d.class_code == 0x0C && d.subclass == 0x03

abbrev pub usb_type : ℕ → Option UsbControllerType
usb_type prog_if =
    if prog_if == 0x00
    then some uhci
    else if prog_if == 0x10
    then some ohci
    else if prog_if == 0x20
    then some ehci
    else if prog_if == 0x30
    then some xhci
    else if prog_if == 0x40
    then some usb4
    else if prog_if == 0xFE
    then some usb_device
    else none

unfoldable pub usb_controller_type : PciDevice → Option UsbControllerType
unfolding is_usb_controller
usb_controller_type d = if not (is_usb_controller d) then none else usb_type d.prog_if

unfoldable pub is_network_controller : PciDevice → Bool
is_network_controller d = d.class_code == 0x02

unfoldable pub is_wifi_controller : PciDevice → Bool
is_wifi_controller d = d.class_code == 0x02 && d.subclass == 0x80

unfoldable pub is_ethernet_controller : PciDevice → Bool
is_ethernet_controller d = d.class_code == 0x02 && d.subclass == 0x00

unfoldable pub is_storage_controller : PciDevice → Bool
is_storage_controller d = d.class_code == 0x01

unfoldable pub is_nvme_controller : PciDevice → Bool
is_nvme_controller d = d.class_code == 0x01 && d.subclass == 0x08 && d.prog_if == 0x02

unfoldable pub is_sata_controller : PciDevice → Bool
is_sata_controller d = d.class_code == 0x01 && d.subclass == 0x06 && d.prog_if == 0x01

unfoldable pub is_display_controller : PciDevice → Bool
is_display_controller d = d.class_code == 0x03

unfoldable pub is_bluetooth_controller : PciDevice → Bool
is_bluetooth_controller d = d.class_code == 0x0C && d.subclass == 0x09

abbrev pub bar_at : PciDevice → ℕ → Option ℕ
bar_at d bar_index =
    if bar_index == 0
    then some d.bar0
    else if bar_index == 1
    then some d.bar1
    else if bar_index == 2
    then some d.bar2
    else if bar_index == 3
    then some d.bar3
    else if bar_index == 4
    then some d.bar4
    else if bar_index == 5
    then some d.bar5
    else none

-- The memory type that bits 1 and 2 give, where the code returns `None` for 1 and 3.
abbrev pub memory_bar : ℕ → Bool → ℕ → Option BarType
memory_bar address prefetchable mem_type =
    if mem_type == 0
    then some (memory_space address bit32 prefetchable)
    else if mem_type == 2
    then some (memory_space address bit64 prefetchable)
    else none

unfoldable pub bar_type : ℕ → Option BarType
bar_type bar =
    if bar == 0
    then none
    else if bit_and bar 0x1 != 0
    then some (io_space (bit_and bar (not_u32 0x3)))
    else memory_bar (bit_and bar (not_u32 0xF)) (bit_and bar 0x8 != 0) (bit_and (bar / 2 ^ 1) 0x3)

unfoldable pub get_bar_type : PciDevice → ℕ → Option BarType
unfolding bar_type
get_bar_type d bar_index = elim (bar_at d bar_index) [ none ↦ none | some bar ↦ bar_type bar ]
