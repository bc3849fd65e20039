-- ===== src/Gdt.antt =====
-- kernel/src/gdt/mod.rs: segment descriptors and the table that the processor is given. `lgdt` and
-- the reload of the segment registers are instructions; `load` gives the descriptor they take.
pub mod Decode
mod Tests
use aetherion_os.Base.{ℕ, ◌+◌, ◌-◌, ◌*◌, ◌/◌, ◌%◌, ◌^◌, List, [], ◌∷◌, bit_and, bit_or}

pub record GdtEntry : Type 0 where
  pub limit_low : ℕ
  pub base_low : ℕ
  pub base_middle : ℕ
  pub access : ℕ
  pub granularity : ℕ
  pub base_high : ℕ

pub null : GdtEntry
null = record {
  limit_low = 0;
  base_low = 0;
  base_middle = 0;
  access = 0;
  granularity = 0;
  base_high = 0;
}

pub new : ℕ → ℕ → ℕ → ℕ → GdtEntry
new base limit access flags = record {
  limit_low = bit_and limit 0xFFFF;
  base_low = bit_and base 0xFFFF;
  base_middle = bit_and (base / 2 ^ 16) 0xFF;
  access = access;
  granularity = bit_or (bit_and (limit / 2 ^ 16) 0x0F) (bit_and flags 0xF0);
  base_high = bit_and (base / 2 ^ 24) 0xFF;
}

pub code_segment : GdtEntry
unfolding new
code_segment = new 0 0xFFFFF 0x9A 0xA0

pub data_segment : GdtEntry
unfolding new
data_segment = new 0 0xFFFFF 0x92 0xC0

pub user_code_segment : GdtEntry
unfolding new
user_code_segment = new 0 0xFFFFF 0xFA 0xA0

pub user_data_segment : GdtEntry
unfolding new
user_data_segment = new 0 0xFFFFF 0xF2 0xC0

pub record Gdt : Type 0 where
  pub entries : List GdtEntry

pub new_table : Gdt
unfolding null code_segment data_segment user_code_segment user_data_segment
new_table = record {
  entries = null ∷ code_segment ∷ data_segment ∷ user_data_segment ∷ user_code_segment ∷ [];
}

pub record GdtDescriptor : Type 0 where
  pub limit : ℕ
  pub base : ℕ

-- `size_of::<Gdt>()`: five packed entries of two, two and four single bytes.
abbrev pub gdt_size : ℕ
gdt_size = 5 * (2 * 2 + 4)

-- `Gdt::load` on a table at `address`.
pub load : ℕ → GdtDescriptor
load address = record { limit = (gdt_size - 1) % 2 ^ 16; base = address }
