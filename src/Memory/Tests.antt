-- ===== src/Memory/Tests.antt =====
-- Runs of the address arithmetic of kernel/src/memory/mod.rs.
use aetherion_os.Base.{◌≡◌, refl}
use aetherion_os.Memory.Address.{pml4_index, pd_index, pt_index, page_offset}

-- The address of the source's own test.
indices_run :
    (pml4_index 0xFFFF_8000_0040_1234 ≡ 256)
    × (pd_index 0xFFFF_8000_0040_1234 ≡ 2)
    × (pt_index 0xFFFF_8000_0040_1234 ≡ 1)
    × (page_offset 0xFFFF_8000_0040_1234 ≡ 0x234)
unfolding pml4_index pd_index pt_index page_offset
indices_run = (refl, refl, refl, refl)
