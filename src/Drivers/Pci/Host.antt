-- ===== src/Drivers/Pci/Host.antt =====
-- What kernel/src/drivers/pci/mod.rs relies on in the host bridge, and what its reads give then.
use aetherion_os.Base.{ℕ, ◌*◌, ◌/◌, ◌%◌, ◌^◌, ◌<◌, ◌≡◌, ◌≢◌, refl, ap, ◌∙◌, bit_and}
use mathlib.Core.Path.{ap₂, fun_ext}
use aetherion_os.Base.Bits.{bit_and-low}
use aetherion_os.Base.Word.{u32_mod}
use aetherion_os.Base.Action.{◌>>=◌, pure}
use aetherion_os.Drivers.Pci.Config.{
  PortIo, Io, outl, config_address_port, config_data_port, pci_address, read_config_byte,
  read_config_word, read_config_dword,
}
use aetherion_os.Drivers.Pci.Address.{dword_offset, word_shift}

-- Configuration mechanism 1: a write to the address port selects a dword, and the data port reads
-- and writes that dword. What a device keeps of a write is its own matter: `stored address old v`.
pub record Host (io : PortIo) : Type 0 where
  pub register : io.Ports → ℕ → ℕ
  pub stored : ℕ → ℕ → ℕ → ℕ
  pub register_bound : (p : io.Ports) (a : ℕ) → register p a < u32_mod
  pub select_keeps :
      (p : io.Ports) (a b : ℕ) → register (io.outl config_address_port a p) b ≡ register p b
  pub read_selected :
      (p : io.Ports) (a : ℕ)
      → io.inl config_data_port (io.outl config_address_port a p)
        ≡ (register p a, io.outl config_address_port a p)
  pub write_selected :
      (p : io.Ports) (a v : ℕ)
      → register (io.outl config_data_port v (io.outl config_address_port a p)) a
        ≡ stored a (register p a) v
  pub write_keeps :
      (p : io.Ports) (a b v : ℕ)
      → a ≢ b
      → register (io.outl config_data_port v (io.outl config_address_port a p)) b ≡ register p b

-- The dword of the space that an offset lies in, and the fields of it.
abbrev pub dword_of : (ℕ → ℕ) → ℕ → ℕ → ℕ → ℕ → ℕ
dword_of r bus device function offset = r (pci_address bus device function (offset / 4 * 4))

abbrev pub byte_of : (ℕ → ℕ) → ℕ → ℕ → ℕ → ℕ → ℕ
byte_of r bus device function offset =
    dword_of r bus device function offset / 2 ^ (offset % 4 * 8) % 256

abbrev pub word_of : (ℕ → ℕ) → ℕ → ℕ → ℕ → ℕ → ℕ
word_of r bus device function offset =
    dword_of r bus device function offset / 2 ^ (offset % 4 / 2 * 16) % 2 ^ 16

module _ (io : PortIo) (host : Host io) where
  -- The code gives `v` of the registers and leaves them alone.
  pub record Reads {A : Type 0} (m : Io io A) (v : (ℕ → ℕ) → A) : Type 0 where
    pub value : (p : io.Ports) → (m p).0 ≡ v (host.register p)
    pub keeps : (p : io.Ports) → host.register (m p).1 ≡ host.register p

module _ (io : PortIo) (host : Host io) where
  pub pure-Reads : {A : Type 0} (a : A) → Reads io host (pure a) (λ r. a)
  pure-Reads a = record { value = λ p. refl; keeps = λ p. refl }

  pub >>=-Reads :
      {A B : Type 0} {m : Io io A} {v : (ℕ → ℕ) → A} {f : A → Io io B} {w : A → (ℕ → ℕ) → B}
      → Reads io host m v
      → ((a : A) → Reads io host (f a) (w a))
      → Reads io host (m >>= f) (λ r. w (v r) r)
  >>=-Reads {m} {v} {f} {w} h k = record {
    value = λ p. (k (m p).0).value (m p).1 ∙ ap₂ w (h.value p) (h.keeps p);
    keeps = λ p. (k (m p).0).keeps (m p).1 ∙ h.keeps p;
  }

  pub Reads-eq :
      {A : Type 0} {m : Io io A} {v : (ℕ → ℕ) → A} (w : (ℕ → ℕ) → A)
      → Reads io host m v
      → ((r : ℕ → ℕ) → v r ≡ w r)
      → Reads io host m w
  Reads-eq w h e = record { value = λ p. h.value p ∙ e (host.register p); keeps = h.keeps }

  -- Selecting a dword and reading it.
  read_dword :
      (a : ℕ)
      → Reads io host (outl io config_address_port a >>= λ _. io.inl config_data_port) (λ r. r a)
  read_dword a = record {
    value = λ p. ap (λ (t : ℕ × io.Ports). t.0) (host.read_selected p a);
    keeps = λ p.
        ap (λ (t : ℕ × io.Ports). host.register t.1) (host.read_selected p a)
        ∙ fun_ext (host.select_keeps p a);
  }

  pub read_config_dword-Reads :
      (bus device function offset : ℕ)
      → offset < 256
      → Reads io host
          (read_config_dword io bus device function offset)
          (λ r. dword_of r bus device function offset)
  unfolding read_config_dword
  read_config_dword-Reads bus device function offset h =
      rw (dword_offset offset h) (read_dword (pci_address bus device function (offset / 4 * 4)))

  -- A value that the code computes from what it has read.
  computes :
      {A B : Type 0} {m : Io io A} {v : (ℕ → ℕ) → A} (f : A → B) (w : (ℕ → ℕ) → B)
      → Reads io host m v
      → ((r : ℕ → ℕ) → f (v r) ≡ w r)
      → Reads io host (m >>= λ a. pure (f a)) w
  computes f w h e = record { value = λ p. ap f (h.value p) ∙ e (host.register p); keeps = h.keeps }

  pub read_config_byte-Reads :
      (bus device function offset : ℕ)
      → offset < 256
      → Reads io host
          (read_config_byte io bus device function offset)
          (λ r. byte_of r bus device function offset)
  unfolding read_config_byte
  read_config_byte-Reads bus device function offset h =
      rw (dword_offset offset h, bit_and-low 2 offset)
        (computes (λ value. bit_and (value / 2 ^ (offset % 4 * 8)) 0xFF)
          (λ r. byte_of r bus device function offset)
          (read_dword (pci_address bus device function (offset / 4 * 4)))
          (λ r. bit_and-low 8 (dword_of r bus device function offset / 2 ^ (offset % 4 * 8))))

  pub read_config_word-Reads :
      (bus device function offset : ℕ)
      → offset < 256
      → Reads io host
          (read_config_word io bus device function offset)
          (λ r. word_of r bus device function offset)
  unfolding read_config_word
  read_config_word-Reads bus device function offset h =
      rw (dword_offset offset h, word_shift offset)
        (computes (λ value. bit_and (value / 2 ^ (offset % 4 / 2 * 16)) 0xFFFF)
          (λ r. word_of r bus device function offset)
          (read_dword (pci_address bus device function (offset / 4 * 4)))
          (λ r. bit_and-low 16 (dword_of r bus device function offset / 2 ^ (offset % 4 / 2 * 16))))
