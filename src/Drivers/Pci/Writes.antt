-- ===== src/Drivers/Pci/Writes.antt =====
-- The writes of kernel/src/drivers/pci/mod.rs to the configuration space, and the four functions
-- that switch a bit of the command register on.
use aetherion_os.Base.{ℕ, ◌*◌, ◌/◌, ◌%◌, ◌^◌, ◌<◌, ◌≡◌, ◌≢◌, sym, ap, ◌∙◌, arith, bit_or}
use mathlib.Core.Path.{subst}
use native.Mathlib.Nat.{mod-lt}
use aetherion_os.Base.Bits.{bit_and-low, bit_or_below}
use aetherion_os.Base.Word.{u32_mod}
use aetherion_os.Base.Action.{◌>>=◌, ◌>>◌}
use aetherion_os.Drivers.Pci.Config.{
  PortIo, Io, outl, merge, config_address_port, config_data_port, pci_address, write_config_byte,
  write_config_word, read_config_byte, read_config_word,
}
use aetherion_os.Drivers.Pci.Device.{PciDevice}
use aetherion_os.Drivers.Pci.Scan.{
  set_command, enable_bus_mastering, enable_memory_space, enable_io_space, disable_interrupts,
}
use aetherion_os.Drivers.Pci.Address.{dword_offset, word_shift, IsMerged, merge_byte, merge_word}
use aetherion_os.Drivers.Pci.Host.{Host, word_of, read_config_byte-Reads, read_config_word-Reads}

-- From `p` to `q` one dword is written, where the field of `n` bits at `shift` holds `value` and
-- the rest is what the dword held; the other dwords stay.
pub record Wrote (io : PortIo) (host : Host io) (n shift a value : ℕ) (p q : io.Ports)
    : Type 0 where
  pub written : ℕ
  pub field : IsMerged n shift (host.register p a) value written
  pub here : host.register q a ≡ host.stored a (host.register p a) written
  pub elsewhere : (b : ℕ) → b ≢ a → host.register q b ≡ host.register p b

module _ (io : PortIo) (host : Host io) where
  -- Selecting a dword, reading it, and writing what `f` makes of it.
  update : (a : ℕ) (f : ℕ → ℕ) → Io io (Unit {0})
  update a f = do
    outl io config_address_port a
    old_value ← io.inl config_data_port
    outl io config_data_port (f old_value)

  update-Wrote :
      (n shift a value : ℕ) (f : ℕ → ℕ) (p : io.Ports)
      → IsMerged n shift (host.register p a) value (f (host.register p a))
      → Wrote io host n shift a value p (update a f p).1
  unfolding update
  update-Wrote n shift a value f p merged =
      let after =
        io.outl config_data_port (f (host.register p a)) (io.outl config_address_port a p) in
      let e : (update a f p).1 ≡ after =
        ap (λ (t : ℕ × io.Ports). io.outl config_data_port (f t.0) t.1) (host.read_selected p a) in
      rw e (record {
        written = f (host.register p a);
        field = merged;
        here = host.write_selected p a (f (host.register p a));
        elsewhere = λ b ne. host.write_keeps p a b (f (host.register p a)) (λ same. ne (sym same));
      })

  pub write_config_byte-Wrote :
      (bus device function offset value : ℕ) (p : io.Ports)
      → offset < 256
      → value < 256
      → Wrote io host 8
          (offset % 4 * 8)
          (pci_address bus device function (offset / 4 * 4))
          value
          p
          (write_config_byte io bus device function offset value p).1
  unfolding write_config_byte update
  write_config_byte-Wrote bus device function offset value p ho hv =
      let a = pci_address bus device function (offset / 4 * 4) in
      rw (dword_offset offset ho, bit_and-low 2 offset)
        (update-Wrote 8 (offset % 4 * 8) a value
          (λ old_value. merge 0xFF (offset % 4 * 8) old_value value) p
          (merge_byte (offset % 4) (host.register p a) value (omega arith) (host.register_bound p a)
            hv))

  pub write_config_word-Wrote :
      (bus device function offset value : ℕ) (p : io.Ports)
      → offset < 256
      → value < 2 ^ 16
      → Wrote io host 16
          (offset % 4 / 2 * 16)
          (pci_address bus device function (offset / 4 * 4))
          value
          p
          (write_config_word io bus device function offset value p).1
  unfolding write_config_word update
  write_config_word-Wrote bus device function offset value p ho hv =
      let a = pci_address bus device function (offset / 4 * 4) in
      rw (dword_offset offset ho, word_shift offset)
        (update-Wrote 16 (offset % 4 / 2 * 16) a value
          (λ old_value. merge 0xFFFF (offset % 4 / 2 * 16) old_value value) p
          (merge_word (offset % 4 / 2) (host.register p a) value (omega arith)
            (host.register_bound p a) hv))

  -- Over any ports that follow configuration mechanism 1, and where the device keeps what is
  -- written to a dword, a byte and a word that are written to the configuration space are read
  -- back.
  pub read-write :
      (bus device function offset byte word : ℕ) (p : io.Ports)
      → offset < 256
      → byte < 256
      → word < 2 ^ 16
      → ((old v : ℕ)
          → v < u32_mod
          → host.stored (pci_address bus device function (offset / 4 * 4)) old v ≡ v)
      → ((read_config_byte io bus device function offset
            (write_config_byte io bus device function offset byte p).1).0
          ≡ byte)
        × ((read_config_word io bus device function offset
              (write_config_word io bus device function offset word p).1).0
            ≡ word)
  read-write bus device function offset byte word p ho hb hw kept =
      let b = write_config_byte-Wrote bus device function offset byte p ho hb in
      let w = write_config_word-Wrote bus device function offset word p ho hw in
      (
        (read_config_byte-Reads io host bus device function offset ho).value _
            ∙ ap (λ (t : ℕ). t / 2 ^ (offset % 4 * 8) % 256) (b.here ∙ kept _ _ b.field.fits)
            ∙ b.field.field,
        (read_config_word-Reads io host bus device function offset ho).value _
            ∙ ap (λ (t : ℕ). t / 2 ^ (offset % 4 / 2 * 16) % 2 ^ 16)
                (w.here ∙ kept _ _ w.field.fits)
            ∙ w.field.field,
      )

  -- The command register of a device, with bits switched on.
  abbrev pub Switches : PciDevice → ℕ → Io io (Unit {0}) → Type 0
  Switches d bits m =
      (p : io.Ports)
      → Wrote io host 16 0 (pci_address d.bus d.device d.function 4)
          (bit_or (word_of (host.register p) d.bus d.device d.function 4) bits) p (m p).1

  -- A read changes no register, so what follows it starts from the same registers.
  from_same :
      {n shift a value : ℕ} (p p' : io.Ports) {q : io.Ports}
      → host.register p' ≡ host.register p
      → Wrote io host n shift a value p' q
      → Wrote io host n shift a value p q
  from_same {n} {shift} {a} {value} p p' e w =
      let same = λ (b : ℕ). ap (λ (r : ℕ → ℕ). r b) e in
      record {
        written = w.written;
        field = subst (λ (old : ℕ). IsMerged n shift old value w.written) (same a) w.field;
        here = w.here ∙ ap (λ (old : ℕ). host.stored a old w.written) (same a);
        elsewhere = λ b ne. w.elsewhere b ne ∙ same b;
      }

  set_command-Switches :
      (d : PciDevice) (bits : ℕ) → bits < 2 ^ 16 → Switches d bits (set_command io d bits)
  set_command-Switches d bits h p =
      let reads = read_config_word-Reads io host d.bus d.device d.function 4 (omega arith) in
      let read = read_config_word io d.bus d.device d.function 4 p in
      let command = word_of (host.register p) d.bus d.device d.function 4 in
      from_same p read.1 (reads.keeps p) (
        rw (reads.value p) (
          write_config_word-Wrote d.bus d.device d.function 4 (bit_or command bits) read.1
            (omega arith) (bit_or_below 16 command bits (mod-lt _ (omega arith)) h)))

  -- Over any ports that follow configuration mechanism 1, each of the four switches of the command
  -- register writes the dword at offset 4 with its low 16 bits as they were but for its own bit,
  -- which is set, and the rest as it was; the device keeps of it what it keeps, and no other dword
  -- of the configuration space changes.
  pub commands :
      (d : PciDevice)
      → Switches d 0x04 (enable_bus_mastering io d)
        × Switches d 0x02 (enable_memory_space io d)
        × Switches d 0x01 (enable_io_space io d)
        × Switches d 0x0400 (disable_interrupts io d)
  unfolding enable_bus_mastering enable_memory_space enable_io_space disable_interrupts
  commands d = (
    set_command-Switches d 0x04 (omega arith),
    set_command-Switches d 0x02 (omega arith),
    set_command-Switches d 0x01 (omega arith),
    set_command-Switches d 0x0400 (omega arith),
  )
