-- ===== src/Drivers/Pci/Config.antt =====
-- The configuration space of kernel/src/drivers/pci/mod.rs, reached through the address port 0xCF8
-- and the data port 0xCFC.
use aetherion_os.Base.{ℕ, ◌*◌, ◌/◌, ◌^◌, bit_and, bit_or}
use aetherion_os.Base.Action.{◌>>=◌, ◌>>◌, pure}
use aetherion_os.Base.Word.{shl_u32, not_u32}

-- The instructions `out dx, eax` and `in eax, dx`, on a state of the machine's ports.
pub record PortIo : Type 1 where
  pub Ports : Type 0
  pub outl : ℕ → ℕ → Ports → Ports
  pub inl : ℕ → Ports → ℕ × Ports

-- Code that uses the ports.
abbrev pub Io : PortIo → Type 0 → Type 0
Io io A = io.Ports → A × io.Ports

abbrev pub config_address_port : ℕ
config_address_port = 0xCF8

abbrev pub config_data_port : ℕ
config_data_port = 0xCFC

unfoldable pub pci_address : ℕ → ℕ → ℕ → ℕ → ℕ
pci_address bus device function offset =
    bit_or
      (bit_or (bit_or (bit_or (shl_u32 1 31) (shl_u32 bus 16)) (shl_u32 device 11))
        (shl_u32 function 8))
      (bit_and offset 0xFC)

-- `(old_value & !(field << shift)) | ((value as u32) << shift)`
abbrev pub merge : ℕ → ℕ → ℕ → ℕ → ℕ
merge field shift old_value value =
    bit_or (bit_and old_value (not_u32 (shl_u32 field shift))) (shl_u32 value shift)

module _ (io : PortIo) where
  abbrev pub outl : ℕ → ℕ → Io io (Unit {0})
  outl port value p = (tt, io.outl port value p)

  unfoldable pub read_config_byte : ℕ → ℕ → ℕ → ℕ → Io io ℕ
  read_config_byte bus device function offset = do
    outl config_address_port (pci_address bus device function (bit_and offset 0xFC))
    value ← io.inl config_data_port
    pure (bit_and (value / 2 ^ (bit_and offset 3 * 8)) 0xFF)

  unfoldable pub read_config_word : ℕ → ℕ → ℕ → ℕ → Io io ℕ
  read_config_word bus device function offset = do
    outl config_address_port (pci_address bus device function (bit_and offset 0xFC))
    value ← io.inl config_data_port
    pure (bit_and (value / 2 ^ (bit_and offset 2 * 8)) 0xFFFF)

  unfoldable pub read_config_dword : ℕ → ℕ → ℕ → ℕ → Io io ℕ
  read_config_dword bus device function offset = do
    outl config_address_port (pci_address bus device function (bit_and offset 0xFC))
    io.inl config_data_port

  unfoldable pub write_config_byte : ℕ → ℕ → ℕ → ℕ → ℕ → Io io (Unit {0})
  write_config_byte bus device function offset value = do
    outl config_address_port (pci_address bus device function (bit_and offset 0xFC))
    old_value ← io.inl config_data_port
    outl config_data_port (merge 0xFF (bit_and offset 3 * 8) old_value value)

  unfoldable pub write_config_word : ℕ → ℕ → ℕ → ℕ → ℕ → Io io (Unit {0})
  write_config_word bus device function offset value = do
    outl config_address_port (pci_address bus device function (bit_and offset 0xFC))
    old_value ← io.inl config_data_port
    outl config_data_port (merge 0xFFFF (bit_and offset 2 * 8) old_value value)

  unfoldable pub write_config_dword : ℕ → ℕ → ℕ → ℕ → ℕ → Io io (Unit {0})
  write_config_dword bus device function offset value = do
    outl config_address_port (pci_address bus device function (bit_and offset 0xFC))
    outl config_data_port value
