-- ===== src/Memory/PageTable/Tests.antt =====
-- Runs of kernel/src/memory/page_table.rs, and its theorems at concrete entries.
use aetherion_os.Base.{ℕ, ◌≡◌, refl, arith}
use aetherion_os.Memory.PageTable.{
  PageTable, empty, has, flags, set_address, new, present_count, write, count_first,
}
use aetherion_os.Memory.PageTable.Entry.{Holds, set_address-Holds}

-- PRESENT and NO_EXECUTE
abbrev two_flags : ℕ
two_flags = 0x8000_0000_0000_0001

set_address_run : set_address new 0x7000 two_flags ≡ 0x8000_0000_0000_7001
unfolding set_address
set_address_run = refl

-- `flags` leaves NO_EXECUTE out.
flags_run : flags 0x8000_0000_0000_7001 ≡ 1
unfolding flags
flags_run = refl

set_address-Holds_example : Holds 0x7000 two_flags (set_address new 0x7000 two_flags)
set_address-Holds_example =
    set_address-Holds new 0x7000 two_flags (record { low = omega arith; bound = omega arith })

abbrev one_entry : PageTable
one_entry = write empty 5 0x7001

present_count_run : present_count one_entry ≡ 1
unfolding present_count count_first has
present_count_run = refl
