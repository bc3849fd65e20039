-- ===== src/Interrupts.antt =====
-- kernel/src/interrupts/idt.rs: the interrupt gates. `lidt` is an instruction; `load` gives the
-- descriptor that it takes. The addresses of the handlers are the linker's, so they are parameters.
pub mod Gates
mod Tests
use aetherion_os.Base.{
  ℕ, ◌-◌, ◌*◌, ◌+◌, ◌/◌, ◌%◌, ◌^◌, List, bit_and, Run, done, ◌>>=◌, at, set, replicate,
}

pub record IdtEntry : Type 0 where
  pub offset_low : ℕ
  pub selector : ℕ
  pub ist : ℕ
  pub flags : ℕ
  pub offset_mid : ℕ
  pub offset_high : ℕ
  pub reserved : ℕ

pub new : IdtEntry
new = record {
  offset_low = 0;
  selector = 0;
  ist = 0;
  flags = 0;
  offset_mid = 0;
  offset_high = 0;
  reserved = 0;
}

pub set_entry : IdtEntry → ℕ → IdtEntry
set_entry e handler = record e {
  offset_low = bit_and handler 0xFFFF;
  offset_mid = bit_and (handler / 2 ^ 16) 0xFFFF;
  offset_high = bit_and (handler / 2 ^ 32) 0xFFFFFFFF;
  selector = 0x08;
  flags = 0x8E;
}

pub record Idt : Type 0 where
  pub entries : List IdtEntry

pub new_table : Idt
unfolding new
new_table = record { entries = replicate 256 new }

-- `self.entries[index]` panics out of range.
pub set_handler : Idt → ℕ → ℕ → Run Idt
set_handler idt index handler = at idt.entries index >>= λ e.
    done (record idt { entries = set idt.entries index (set_entry e handler) })

pub record IdtDescriptor : Type 0 where
  pub limit : ℕ
  pub base : ℕ

-- `size_of::<Idt>()`: 256 packed entries of 16 bytes, which is a multiple of the alignment 16.
abbrev pub idt_size : ℕ
idt_size = 256 * (2 + 2 + 1 + 1 + 2 + 4 + 4)

-- `Idt::load` on a table at `address`.
pub load : ℕ → IdtDescriptor
load address = record { limit = (idt_size - 1) % 2 ^ 16; base = address }

-- `init_idt` up to the load, with the addresses of the three handlers.
pub init_idt : ℕ → ℕ → ℕ → Run Idt
init_idt divide_by_zero_handler general_protection_fault_handler page_fault_handler = do
  idt ← set_handler new_table 0 divide_by_zero_handler
  idt' ← set_handler idt 13 general_protection_fault_handler
  set_handler idt' 14 page_fault_handler
