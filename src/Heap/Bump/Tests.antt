-- ===== src/Heap/Bump/Tests.antt =====
-- Runs of kernel/src/allocator/bump.rs, and its theorems at a heap of one page.
use aetherion_os.Base.{◌^◌, ◌≡◌, refl, List, [], ◌∷◌, All, arith}
use aetherion_os.Base.Align.{align_up}
use aetherion_os.Heap.Layout.{Layout, IsLayout, AllApart}
use aetherion_os.Heap.Bump.{BumpAllocator, alloc}
use aetherion_os.Heap.Bump.Calls.{IsValid}
use aetherion_os.Heap.Bump.Blocks.{run, run_blocks, Between, Serves, granted}
use aetherion_os.Heap.Bump.Limits.{alloc_wraps}

abbrev page : BumpAllocator
page = record { heap_start = 0x10000; heap_end = 0x11000; next = 0x10004; allocations = 1 }

page-IsValid : IsValid page
page-IsValid = omega arith

abbrev word : Layout
word = record { size = 24; align = 8 }

word-IsLayout : IsLayout word
word-IsLayout = record {
  align = record { log = 3; small = omega arith; pow = refl };
  size = omega arith;
}

alloc-word : alloc page word ≡ (0x10008, record page { next = 0x10020; allocations = 2 })
unfolding alloc align_up
alloc-word = refl

-- A page is more than what is left.
abbrev whole_page : Layout
whole_page = record { size = 4096; align = 8 }

whole_page-IsLayout : IsLayout whole_page
whole_page-IsLayout = record {
  align = record { log = 3; small = omega arith; pow = refl };
  size = omega arith;
}

abbrev requests : List Layout
requests = word ∷ whole_page ∷ word ∷ []

run-requests : run page requests ≡ 0x10008 ∷ 0 ∷ 0x10020 ∷ []
unfolding alloc align_up
run-requests = refl

run_blocks_example :
    Serves 0x11000 0x10004 requests (run page requests)
    × All (Between 0x10000 0x11000) (granted requests (run page requests))
    × AllApart (granted requests (run page requests))
run_blocks_example =
    run_blocks requests page-IsValid (word-IsLayout, (whole_page-IsLayout, (word-IsLayout, tt)))

abbrev high : BumpAllocator
high = record {
  heap_start = 0xFFFF_8000_0000_0000;
  heap_end = 0xFFFF_8000_0010_0000;
  next = 0xFFFF_8000_0000_0001;
  allocations = 0;
}

alloc_wraps_example :
    alloc high (record { size = 64; align = 2 ^ 48 })
    ≡ (0, record high { next = 64; allocations = 1 })
alloc_wraps_example =
    alloc_wraps high (record { size = 64; align = 2 ^ 48 })
      (record { log = 48; small = omega arith; pow = refl }) (omega arith) (omega arith)
      (omega arith) (omega arith)
