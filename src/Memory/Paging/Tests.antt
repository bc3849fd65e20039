-- ===== src/Memory/Paging/Tests.antt =====
-- Runs of kernel/src/memory/paging.rs, and its theorems at an empty tree with its table at 0x1000
-- and ten frames at 0x100000, two of which are taken.
use aetherion_os.Base.{ℕ, ◌≡◌, refl, true, [], ◌∷◌, done, Returns, arith, at}
use aetherion_os.Memory.Address.{
  align_down, align_up, is_aligned, pml4_index, pdpt_index, pd_index, pt_index,
}
use aetherion_os.Memory.Bitmap.{find_first_clear, scan_bytes, scan_byte, set, update_byte, is_set}
use aetherion_os.Memory.Bitmap.View.{bit}
use aetherion_os.Memory.Bitmap.Counting.{count}
use aetherion_os.Memory.FrameAllocator.{FrameAllocator, allocate_frame, frame_address}
use aetherion_os.Memory.FrameAllocator.Valid.{Starts}
use aetherion_os.Memory.FrameAllocator.Valid
use aetherion_os.Memory.PageTable.{
  empty, has, present, zero_table, clear_first, set_address, physical_address,
}
use aetherion_os.Memory.PageTable.Bits.{IsFlags}
use aetherion_os.Memory.Paging.{
  identity_map_range, Memory, Machine, PageMapper, ok, map_page, map_entry, get_or_create_table,
  unmap_page, init_pml4_table,
}
use aetherion_os.Memory.Paging.Identity.{Ranged, identity_map_range-Ranged}
use aetherion_os.Memory.Paging.Tree.{IsTree}
use aetherion_os.Memory.Paging.Grow.{grow}
use aetherion_os.Memory.Paging.Agree.{with_entry}
use aetherion_os.Memory.Paging.Mapped.{Mapped}
use aetherion_os.Memory.Paging.Map.{map_page-Mapped}
use aetherion_os.Memory.Paging.Unmap.{Unmapped, unmap_page-Unmapped}
use aetherion_os.Memory.Paging.Translate.{
  MapTranslates, map_page-MapTranslates, Undone, unmap_page-map_page,
}
use aetherion_os.Memory.Paging.Start.{only_root, init_pml4_table-IsTree}

abbrev ten : FrameAllocator
ten = record {
  bitmap = record { bytes = 3 ∷ 0 ∷ []; size = 10 };
  start_address = 0x100000;
  total_frames = 10;
  allocated_frames = 2;
}

ten-IsValid : Valid.IsValid ten
unfolding bit count
ten-IsValid = record {
  bitmap = record { room = omega arith; words = omega arith };
  total = refl;
  counted = refl;
  region = omega arith;
}

abbrev mapper : PageMapper
mapper = record { pml4_address = 0x1000 }

abbrev any_memory : Memory
any_memory a = empty

abbrev boot : Machine
boot = record { memory = init_pml4_table any_memory 0x1000; allocator = ten; flushed = [] }

root_used : (i : ℕ) → Starts ten i 0x1000 → bit ten.bitmap i ≡ true
root_used i s = absurd (omega (arith, s.exact))

boot-IsTree : IsTree 0x1000 boot.memory ten (only_root 0x1000)
boot-IsTree = (init_pml4_table-IsTree mapper any_memory ten ten-IsValid (omega arith) root_used).0

three-IsFlags : IsFlags 3
three-IsFlags = record { low = omega arith; bound = omega arith }

map_page-Mapped_example :
    Returns (map_page mapper 0x40001000 0x7000 3 boot) (Mapped 0x1000 0x40001000 0x7000 3 boot)
map_page-Mapped_example = map_page-Mapped mapper 0x40001000 0x7000 3 boot-IsTree three-IsFlags

map_page-MapTranslates_example :
    Returns
      (map_page mapper 0x40001000 0x7000 3 boot)
      (MapTranslates mapper boot 0x40001000 0x7000 3)
map_page-MapTranslates_example =
    map_page-MapTranslates boot mapper 0x40001000 0x7000 3 boot-IsTree three-IsFlags

unmap_page-Unmapped_example :
    Returns (unmap_page mapper 0x40001000 boot) (Unmapped 0x1000 (only_root 0x1000) 0x40001000 boot)
unmap_page-Unmapped_example = unmap_page-Unmapped mapper 0x40001000 boot boot-IsTree

abbrev mapped : Machine
mapped = record {
  memory =
      with_entry
        (grow (grow (grow boot.memory 0x1000 0 0 0x102000) 0x102000 1 0 0x103000) 0x103000 0 0
          0x104000)
        0x104000 1 0x7003;
  allocator = record {
    bitmap = record { bytes = 31 ∷ 0 ∷ []; size = 10 };
    start_address = 0x100000;
    total_frames = 10;
    allocated_frames = 5;
  };
  flushed = 0x40001000 ∷ [];
}

map_page_run : map_page mapper 0x40001000 0x7000 3 boot ≡ done (ok tt, mapped)
unfolding map_page map_entry get_or_create_table is_aligned pml4_index pdpt_index pd_index pt_index
    allocate_frame frame_address find_first_clear scan_bytes scan_byte set update_byte is_set at has
    set_address physical_address init_pml4_table zero_table clear_first
map_page_run = refl

flag_on : has 3 present ≡ true
unfolding has
flag_on = refl

unmap_page-map_page_example :
    Returns (unmap_page mapper 0x40001000 mapped) (Undone mapper 0x7000 boot)
unmap_page-map_page_example =
    unmap_page-map_page boot mapped mapper 0x40001000 0x7000 3 boot-IsTree three-IsFlags flag_on
      map_page_run

identity_map_range_example :
    Returns
      (identity_map_range mapper 0x7800 0x1000 3 boot)
      (Ranged mapper boot (align_down 0x7800 4096) (align_up 0x8800 4096) 3)
identity_map_range_example =
    identity_map_range-Ranged mapper 0x7800 0x1000 3 boot boot-IsTree three-IsFlags (omega arith)
