-- ===== src/Drivers/Pci/Read.antt =====
-- `PciDevice::new` of kernel/src/drivers/pci/mod.rs gives what the registers say.
use aetherion_os.Base.{ℕ, ◌==◌, if◌then◌else◌, Option, none, some, arith, Bool-cases, inl, inr}
use aetherion_os.Base.Action.{pure}
use aetherion_os.Drivers.Pci.Config.{PortIo}
use aetherion_os.Drivers.Pci.Device.{PciDevice, new, read_device}
use aetherion_os.Drivers.Pci.Host.{
  Host, Reads, pure-Reads, >>=-Reads, read_config_byte-Reads, read_config_word-Reads,
  read_config_dword-Reads, byte_of, word_of, dword_of,
}

-- The device that the registers describe.
abbrev pub described : (ℕ → ℕ) → ℕ → ℕ → ℕ → PciDevice
described r bus device function = record {
  bus = bus;
  device = device;
  function = function;
  vendor_id = word_of r bus device function 0x00;
  device_id = word_of r bus device function 0x02;
  class_code = byte_of r bus device function 0x0B;
  subclass = byte_of r bus device function 0x0A;
  prog_if = byte_of r bus device function 0x09;
  revision_id = byte_of r bus device function 0x08;
  header_type = byte_of r bus device function 0x0E;
  bar0 = dword_of r bus device function 0x10;
  bar1 = dword_of r bus device function 0x14;
  bar2 = dword_of r bus device function 0x18;
  bar3 = dword_of r bus device function 0x1C;
  bar4 = dword_of r bus device function 0x20;
  bar5 = dword_of r bus device function 0x24;
  interrupt_line = byte_of r bus device function 0x3C;
  interrupt_pin = byte_of r bus device function 0x3D;
}

-- The device at a location, where the vendor is not the 0xFFFF of an empty one.
unfoldable pub device_at : (ℕ → ℕ) → ℕ → ℕ → ℕ → Option PciDevice
device_at r bus device function =
    if word_of r bus device function 0x00 == 0xFFFF
    then none
    else some (described r bus device function)

module _ (io : PortIo) (host : Host io) where
  abbrev with_vendor : (ℕ → ℕ) → ℕ → ℕ → ℕ → ℕ → PciDevice
  with_vendor r bus device function vendor_id = record (described r bus device function) {
    vendor_id = vendor_id;
  }

  read_device-Reads :
      (bus device function vendor_id : ℕ)
      → Reads io host
          (read_device io bus device function vendor_id)
          (λ r. some (with_vendor r bus device function vendor_id))
  unfolding read_device
  read_device-Reads bus device function vendor_id =
      let word = read_config_word-Reads io host bus device function in
      let byte = read_config_byte-Reads io host bus device function in
      let dword = read_config_dword-Reads io host bus device function in
      >>=-Reads io host (word 0x02 (omega arith)) λ device_id.
        >>=-Reads io host (byte 0x08 (omega arith)) λ revision_id.
          >>=-Reads io host (byte 0x09 (omega arith)) λ prog_if.
            >>=-Reads io host (byte 0x0A (omega arith)) λ subclass.
              >>=-Reads io host (byte 0x0B (omega arith)) λ class_code.
                >>=-Reads io host (byte 0x0E (omega arith)) λ header_type.
                  >>=-Reads io host (dword 0x10 (omega arith)) λ bar0.
                    >>=-Reads io host (dword 0x14 (omega arith)) λ bar1.
                      >>=-Reads io host (dword 0x18 (omega arith)) λ bar2.
                        >>=-Reads io host (dword 0x1C (omega arith)) λ bar3.
                          >>=-Reads io host (dword 0x20 (omega arith)) λ bar4.
                            >>=-Reads io host (dword 0x24 (omega arith)) λ bar5.
                              >>=-Reads io host (byte 0x3C (omega arith)) λ interrupt_line.
                                >>=-Reads io host (byte 0x3D (omega arith)) λ interrupt_pin.
                                  pure-Reads io host (
                                    some (record {
                                      bus = bus;
                                      device = device;
                                      function = function;
                                      vendor_id = vendor_id;
                                      device_id = device_id;
                                      class_code = class_code;
                                      subclass = subclass;
                                      prog_if = prog_if;
                                      revision_id = revision_id;
                                      header_type = header_type;
                                      bar0 = bar0;
                                      bar1 = bar1;
                                      bar2 = bar2;
                                      bar3 = bar3;
                                      bar4 = bar4;
                                      bar5 = bar5;
                                      interrupt_line = interrupt_line;
                                      interrupt_pin = interrupt_pin;
                                    }))

  -- The branch on a vendor that has been read.
  after_vendor :
      (bus device function vendor_id : ℕ)
      → Reads io host
          (if vendor_id == 0xFFFF then pure none else read_device io bus device function vendor_id)
          (λ r.
            if vendor_id == 0xFFFF
            then none
            else some (with_vendor r bus device function vendor_id))
  after_vendor bus device function vendor_id = elim (Bool-cases (vendor_id == 0xFFFF)) [
    | inl absent ↦ rw absent (pure-Reads io host none)
    | inr present ↦ rw present (read_device-Reads bus device function vendor_id)
  ]

  pub new-Reads :
      (bus device function : ℕ)
      → Reads io host (new io bus device function) (λ r. device_at r bus device function)
  unfolding new device_at
  new-Reads bus device function =
      >>=-Reads io host (read_config_word-Reads io host bus device function 0x00 (omega arith))
        (after_vendor bus device function)
