-- ===== src/Gdt/Tests.antt =====
-- Descriptors of kernel/src/gdt/mod.rs at concrete values.
use aetherion_os.Base.{◌*◌, ◌/◌, ◌%◌, ◌^◌, ◌≡◌, refl, arith, [], ◌∷◌, map, length, ◌-◌}
use aetherion_os.Gdt.{new, new_table, load}
use aetherion_os.Gdt.Decode.{base_of, limit_of, flags_of, new-Holds}

new-Holds_example :
    (base_of (new 0x12345678 0xABCDE 0x9A 0xAF) ≡ 0x12345678)
    × (limit_of (new 0x12345678 0xABCDE 0x9A 0xAF) ≡ 0xABCDE % 2 ^ 20)
    × ((new 0x12345678 0xABCDE 0x9A 0xAF).access ≡ 0x9A)
    × (flags_of (new 0x12345678 0xABCDE 0x9A 0xAF) ≡ 0xAF / 16)
new-Holds_example = new-Holds 0x12345678 0xABCDE 0x9A 0xAF (omega arith) (omega arith)

table : map limit_of new_table.entries ≡ 0 ∷ 0xFFFFF ∷ 0xFFFFF ∷ 0xFFFFF ∷ 0xFFFFF ∷ []
unfolding new_table
table = refl

-- The descriptor's limit is the last byte of five entries of eight bytes.
last_byte : (load 0x1000).limit ≡ length new_table.entries * 8 - 1
unfolding load new_table
last_byte = refl
