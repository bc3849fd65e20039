-- ===== src/Memory/PageTable.antt =====
-- kernel/src/memory/page_table.rs: page table entries, which are their `u64`, and tables.
pub mod Bits
pub mod Entry
mod Tests
use aetherion_os.Base.{
  ℕ, zero, suc, ◌+◌, ◌-◌, ◌*◌, ◌^◌, bit_and, bit_or, ltb, ◌!=◌, ◌==◌, Bool, true, false,
  if◌then◌else◌, Run, done, panic,
}
use aetherion_os.Base.Word.{not_usize}
use aetherion_os.Memory.Address.{PhysicalAddress}

pub data PageTableFlags : Type 0 where
  present : PageTableFlags
  writable : PageTableFlags
  user_accessible : PageTableFlags
  write_through : PageTableFlags
  no_cache : PageTableFlags
  accessed : PageTableFlags
  dirty : PageTableFlags
  huge_page : PageTableFlags
  global : PageTableFlags
  no_execute : PageTableFlags

-- The number of the flag's bit; `flag as u64` is that power of two.
abbrev pub bit_of : PageTableFlags → ℕ
bit_of present = 0
bit_of writable = 1
bit_of user_accessible = 2
bit_of write_through = 3
bit_of no_cache = 4
bit_of accessed = 5
bit_of dirty = 6
bit_of huge_page = 7
bit_of global = 8
bit_of no_execute = 63

abbrev pub as_u64 : PageTableFlags → ℕ
as_u64 flag = 2 ^ bit_of flag

abbrev pub PageTableEntry : Type 0
PageTableEntry = ℕ

abbrev pub new : PageTableEntry
new = 0

abbrev pub addr_mask : ℕ
addr_mask = 0x000F_FFFF_FFFF_F000

unfoldable pub set_address : PageTableEntry → PhysicalAddress → ℕ → PageTableEntry
set_address entry addr flags = bit_or (bit_and addr addr_mask) flags

abbrev pub new_with_address : PhysicalAddress → ℕ → PageTableEntry
new_with_address addr flags = set_address new addr flags

unfoldable pub physical_address : PageTableEntry → PhysicalAddress
physical_address entry = bit_and entry addr_mask

-- `(self.entry & flag as u64) != 0`
unfoldable pub has : PageTableEntry → PageTableFlags → Bool
has entry flag = bit_and entry (as_u64 flag) != 0

abbrev pub is_present : PageTableEntry → Bool
is_present entry = has entry present

abbrev pub is_writable : PageTableEntry → Bool
is_writable entry = has entry writable

abbrev pub is_user_accessible : PageTableEntry → Bool
is_user_accessible entry = has entry user_accessible

abbrev pub is_huge_page : PageTableEntry → Bool
is_huge_page entry = has entry huge_page

abbrev pub is_no_execute : PageTableEntry → Bool
is_no_execute entry = has entry no_execute

-- `entry |= flag` and `entry &= !flag`
unfoldable pub put : PageTableEntry → PageTableFlags → Bool → PageTableEntry
put entry flag true = bit_or entry (as_u64 flag)
put entry flag false = bit_and entry (not_usize (as_u64 flag))

abbrev pub set_present : PageTableEntry → Bool → PageTableEntry
set_present entry on = put entry present on

abbrev pub set_writable : PageTableEntry → Bool → PageTableEntry
set_writable entry on = put entry writable on

unfoldable pub flags : PageTableEntry → ℕ
flags entry = bit_and entry 0xFFF

abbrev pub clear : PageTableEntry → PageTableEntry
clear entry = 0

-- The array of 512 entries, as a function of the index.
abbrev pub entry_count : ℕ
entry_count = 512

pub record PageTable : Type 0 where
  pub entries : ℕ → PageTableEntry

abbrev pub empty : PageTable
empty = record { entries = λ i. new }

-- `table[index]`, which panics out of range.
abbrev pub entry : PageTable → ℕ → Run PageTableEntry
entry t index = if ltb index entry_count then done (t.entries index) else panic

-- A write through `&mut table[index]`.
abbrev pub write : PageTable → ℕ → PageTableEntry → PageTable
write t index e = record { entries = λ i. if i == index then e else t.entries i }

-- `zero` and `clear_all`: the loop over the first `n` entries.
unfoldable pub clear_first : ℕ → PageTable → PageTable
clear_first zero t = t
clear_first (suc n) t = let rest = clear_first n t in write rest n (clear (rest.entries n))

unfoldable pub zero_table : PageTable → PageTable
zero_table t = clear_first entry_count t

unfoldable pub clear_all : PageTable → PageTable
clear_all t = clear_first entry_count t

unfoldable pub count_first : ℕ → PageTable → ℕ
count_first zero t = 0
count_first (suc n) t =
    let rest = count_first n t in if is_present (t.entries n) then rest + 1 else rest

unfoldable pub present_count : PageTable → ℕ
present_count t = count_first entry_count t
