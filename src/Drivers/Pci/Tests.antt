-- ===== src/Drivers/Pci/Tests.antt =====
-- Runs of the PCI driver on a small bus, and instances of the theorems.
use mathlib.Core.Option
use aetherion_os.Base.{ℕ, ◌%◌, ◌^◌, ◌<◌, ◌≡◌, ◌==◌, refl, if◌then◌else◌, arith, some, [], ◌∷◌, map}
use aetherion_os.Drivers.Pci.Config.{
  PortIo, pci_address, read_config_word, read_config_byte, read_config_dword, write_config_word,
  write_config_byte,
}
use aetherion_os.Drivers.Pci.Device.{PciDevice, new}
use aetherion_os.Drivers.Pci.Names.{device_name, match_name, named_devices}
use aetherion_os.Drivers.Pci.Scan.{
  scan_devices, scan_bus, enable_bus_mastering, enable_memory_space, enable_io_space,
  disable_interrupts,
}
use aetherion_os.Drivers.Pci.Host.{Host}
use aetherion_os.Drivers.Pci.Locations.{location, IsScan, scan_bus-IsScan}
use aetherion_os.Drivers.Pci.Writes.{read-write, commands, Switches}
use aetherion_os.Drivers.Pci.Bars.{Decodes, get_bar_type-Decodes}

-- The selected dword, and what each dword holds.
abbrev board : PortIo
board = record {
  Ports = ℕ × (ℕ → ℕ);
  outl = λ port v p.
      if port == 0xCF8
      then (v, p.1)
      else if port == 0xCFC
      then (p.0, λ a. if a == p.0 then v else p.1 a)
      else p;
  inl = λ port p. (if port == 0xCFC then p.1 p.0 % 2 ^ 32 else 0, p);
}

-- A device keeps what is written to it.
board_host : Host board
board_host = record {
  register = λ p a. p.1 a % 2 ^ 32;
  stored = λ a old v. v % 2 ^ 32;
  register_bound = λ p a. omega arith;
  select_keeps = λ p a b. refl;
  read_selected = λ p a. refl;
  write_selected = λ p a v. ground arith;
  write_keeps = λ p a b v ne. ground arith;
}

-- An Intel XHCI controller with a second function at 00:14.0, and nothing else.
abbrev dwords : ℕ → ℕ
dwords a =
    if a == 0x8000A000
    then 0x9D2F8086
    else if a == 0x8000A008
    then 0x0C033021
    else if a == 0x8000A00C
    then 0x00800000
    else if a == 0x8000A010
    then 0xF7C0000C
    else if a == 0x8000A100
    then 0x9DF98086
    else 0xFFFFFFFF

abbrev ports : ℕ × (ℕ → ℕ)
ports = (0, dwords)

found_there : map location (scan_devices board 0 32 0 [] ports).0 ≡ 160 ∷ 161 ∷ []
unfolding scan_devices new read_config_word read_config_byte read_config_dword pci_address
found_there = refl

named : Option.map device_name (new board 0 20 0 ports).0 ≡ some "Intel USB 3.0 XHCI Controller"
unfolding new read_config_word read_config_byte read_config_dword pci_address device_name match_name
    named_devices
named = refl

abbrev xhci_controller : PciDevice
xhci_controller = record {
  bus = 0;
  device = 20;
  function = 0;
  vendor_id = 0x8086;
  device_id = 0x9D2F;
  class_code = 0x0C;
  subclass = 0x03;
  prog_if = 0x30;
  revision_id = 0x21;
  header_type = 0x80;
  bar0 = 0xF7C0000C;
  bar1 = 0;
  bar2 = 0;
  bar3 = 0;
  bar4 = 0;
  bar5 = 0;
  interrupt_line = 11;
  interrupt_pin = 1;
}

scan_bus-IsScan_example :
    IsScan (λ a. dwords a % 2 ^ 32) (scan_bus board ports).0
    × (board_host.register (scan_bus board ports).1 ≡ λ a. dwords a % 2 ^ 32)
unfolding board_host
scan_bus-IsScan_example = scan_bus-IsScan board board_host ports

commands_example :
    Switches board board_host xhci_controller 0x04 (enable_bus_mastering board xhci_controller)
    × Switches board board_host xhci_controller 0x02 (enable_memory_space board xhci_controller)
    × Switches board board_host xhci_controller 0x01 (enable_io_space board xhci_controller)
    × Switches board board_host xhci_controller 0x0400 (disable_interrupts board xhci_controller)
commands_example = commands board board_host xhci_controller

get_bar_type-Decodes_example : Decodes xhci_controller 0
get_bar_type-Decodes_example = get_bar_type-Decodes xhci_controller 0

same_address : pci_address 0 20 1 0x3C ≡ pci_address 0 20 1 0x3D
unfolding pci_address
same_address = refl

-- The interrupt line, and the upper half of the command register's dword.
board_keeps : (old v : ℕ) → v < 2 ^ 32 → board_host.stored (pci_address 0 20 0 0x3C) old v ≡ v
unfolding board_host
board_keeps old v h = omega arith

read-write_example :
    ((read_config_byte board 0 20 0 0x3C (write_config_byte board 0 20 0 0x3C 0x0B ports).1).0
      ≡ 0x0B)
    × ((read_config_word board 0 20 0 0x3C (write_config_word board 0 20 0 0x3C 0x10B ports).1).0
        ≡ 0x10B)
read-write_example =
    read-write board board_host 0 20 0 0x3C 0x0B 0x10B ports (omega arith) (omega arith)
      (omega arith) board_keeps
