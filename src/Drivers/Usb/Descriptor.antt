-- ===== src/Drivers/Usb/Descriptor.antt =====
-- kernel/src/drivers/usb/descriptor.rs and the device of kernel/src/drivers/usb/mod.rs.
use aetherion_os.Base.{ℕ, ◌==◌, ◌!=◌, Bool, if◌then◌else◌, Run, done, panic, bit_and, List, [], ◌∷◌}
use aetherion_os.Base.Fallible.{Result, ok, err}
use aetherion_os.Drivers.Pci.Device.{PciDevice}

pub record DeviceDescriptor : Type 0 where
  pub length : ℕ
  pub descriptor_type : ℕ
  pub usb_version : ℕ
  pub device_class : ℕ
  pub device_subclass : ℕ
  pub device_protocol : ℕ
  pub max_packet_size0 : ℕ
  pub vendor_id : ℕ
  pub product_id : ℕ
  pub device_release : ℕ
  pub manufacturer_string : ℕ
  pub product_string : ℕ
  pub serial_number_string : ℕ
  pub num_configurations : ℕ

pub record ConfigurationDescriptor : Type 0 where
  pub length : ℕ
  pub descriptor_type : ℕ
  pub total_length : ℕ
  pub num_interfaces : ℕ
  pub configuration_value : ℕ
  pub configuration_string : ℕ
  pub attributes : ℕ
  pub max_power : ℕ

pub record InterfaceDescriptor : Type 0 where
  pub length : ℕ
  pub descriptor_type : ℕ
  pub interface_number : ℕ
  pub alternate_setting : ℕ
  pub num_endpoints : ℕ
  pub interface_class : ℕ
  pub interface_subclass : ℕ
  pub interface_protocol : ℕ
  pub interface_string : ℕ

pub record EndpointDescriptor : Type 0 where
  pub length : ℕ
  pub descriptor_type : ℕ
  pub endpoint_address : ℕ
  pub attributes : ℕ
  pub max_packet_size : ℕ
  pub interval : ℕ

pub data EndpointTransferType : Type 0 where
  control : EndpointTransferType
  isochronous : EndpointTransferType
  bulk : EndpointTransferType
  interrupt : EndpointTransferType

unfoldable pub endpoint_number : EndpointDescriptor → ℕ
endpoint_number e = bit_and e.endpoint_address 0x0F

unfoldable pub is_in : EndpointDescriptor → Bool
is_in e = bit_and e.endpoint_address 0x80 != 0

-- The last arm is `unreachable!()`.
unfoldable pub transfer_type : EndpointDescriptor → Run EndpointTransferType
transfer_type e =
    let kind = bit_and e.attributes 0x03 in
    if kind == 0
    then done control
    else if kind == 1
    then done isochronous
    else if kind == 2
    then done bulk
    else if kind == 3
    then done interrupt
    else panic

-- `UsbDevice` of mod.rs
pub record UsbDevice : Type 0 where
  pub vendor_id : ℕ
  pub product_id : ℕ
  pub device_class : ℕ
  pub device_subclass : ℕ
  pub protocol : ℕ
  pub max_packet_size : ℕ
  pub manufacturer : ℕ
  pub product : ℕ
  pub serial_number : ℕ

-- `scan_usb_controllers` of mod.rs, which returns the vector that it has just made.
unfoldable pub scan_usb_controllers : Result (List PciDevice)
scan_usb_controllers = ok []

abbrev pub init_with : List PciDevice → Result (Unit {0})
init_with [] = err "No USB controllers found"
init_with (controller ∷ controllers) = ok tt

-- `init` of mod.rs; the local `serial_print!` prints nothing.
unfoldable pub init : Result (Unit {0})
unfolding scan_usb_controllers
init = elim scan_usb_controllers [
  | ok controllers ↦ init_with controllers
  | err message ↦ err message
]
