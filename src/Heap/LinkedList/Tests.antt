-- ===== src/Heap/LinkedList/Tests.antt =====
-- Runs of kernel/src/allocator/linked_list.rs, and its theorems at a heap of one page.
use aetherion_os.Base.{◌≡◌, refl, [], ◌∷◌, done, panic, Returns, arith}
use aetherion_os.Base.Align.{align_up}
use aetherion_os.Heap.Layout.{Layout, IsLayout}
use aetherion_os.Heap.LinkedList.{
  LinkedListAllocator, new, init, add_free_region, alloc_from_region, find_region, alloc, dealloc,
  block_size,
}
use aetherion_os.Heap.LinkedList.Valid.{IsValid}
use aetherion_os.Heap.LinkedList.Alloc.{Outcome}
use aetherion_os.Heap.LinkedList.Carve.{alloc-Outcome}
use aetherion_os.Heap.LinkedList.Reuse.{Again, dealloc-alloc, Freed}
use aetherion_os.Heap.LinkedList.Client.{
  World, Reach, here, next, allocate, IsHeapSound, Reach-IsHeapSound, calls_return,
}

abbrev page : LinkedListAllocator
page = record { regions = record { addr = 0x10008; size = 0xFF8 } ∷ [] }

abbrev word : Layout
word = record { size = 20; align = 16 }

abbrev rest : LinkedListAllocator
rest = record { regions = record { addr = 0x10028; size = 0xFD8 } ∷ [] }

page-IsValid : IsValid page
page-IsValid = record {
  regions = (
    record { aligned = omega arith; room = omega arith; above = omega arith; low = omega arith },
    tt,
  );
  disjoint = (tt, tt);
}

word-IsLayout : IsLayout word
word-IsLayout = record {
  align = record { log = 4; small = omega arith; pow = refl };
  size = omega arith;
}

init-page : init new 0x10008 0xFF8 ≡ done page
unfolding init new add_free_region
init-page = refl

init-small : init new 0x10008 8 ≡ panic
unfolding init new add_free_region
init-small = refl

alloc-word : alloc page word ≡ done (0x10010, rest)
unfolding alloc find_region alloc_from_region block_size align_up add_free_region
alloc-word = refl

-- The 8 bytes in front of the block are not given back.
dealloc-word :
    dealloc rest 0x10010 word
    ≡ done (record { regions = record { addr = 0x10010; size = 24 } ∷ rest.regions })
unfolding dealloc block_size align_up add_free_region
dealloc-word = refl

alloc-Outcome_example : Returns (alloc page word) (Outcome page word)
alloc-Outcome_example = alloc-Outcome word page-IsValid word-IsLayout

dealloc-alloc_example : Returns (dealloc rest 0x10010 word) (Again page rest word 0x10010)
dealloc-alloc_example =
    dealloc-alloc word 0x10010 page-IsValid word-IsLayout alloc-word (omega arith)

abbrev start : World
start = record { heap = page; held = [] }

abbrev holding : World
holding = record { heap = rest; held = record { ptr = 0x10010; layout = word } ∷ [] }

start-IsHeapSound : IsHeapSound start
start-IsHeapSound = record { valid = page-IsValid; live = tt; apart = tt }

step_word : Reach start holding
step_word = next here (allocate start word 0x10010 rest word-IsLayout alloc-word (omega arith))

Reach-IsHeapSound_example : IsHeapSound holding
Reach-IsHeapSound_example = Reach-IsHeapSound start-IsHeapSound step_word

calls_return_example :
    Returns (alloc rest word) (Outcome rest word)
    × Returns (dealloc rest 0x10010 word) (Freed rest 0x10010 word)
calls_return_example =
    calls_return word [] [] (record { ptr = 0x10010; layout = word })
      (Reach-IsHeapSound start-IsHeapSound step_word) word-IsLayout refl
