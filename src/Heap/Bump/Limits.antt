-- ===== src/Heap/Bump/Limits.antt =====
-- Where `alloc` (kernel/src/allocator/bump.rs) wraps, and the figures of `stats`.
use aetherion_os.Base.{ℕ, ◌+◌, ◌^◌, ◌≤◌, ◌<◌, ◌≡◌, arith}
use aetherion_os.Base.Word.{usize_mod, add_usize}
use aetherion_os.Base.Align.{align_up_wrap, IsAlign}
use aetherion_os.Heap.Layout.{Layout}
use aetherion_os.Heap.Bump.{
  BumpAllocator, LockedAllocator, init, alloc, stats, reset, init_heap, heap_stats,
}
use aetherion_os.Heap.Bump.Calls.{IsValid}

-- Where rounding next up wraps, for a power of two as the alignment and a block no longer than the
-- end of the heap, alloc hands out address 0 as a block and moves next back to the size of the
-- block.
pub alloc_wraps :
    (b : BumpAllocator) (l : Layout)
    → IsAlign l.align
    → b.next < usize_mod
    → usize_mod < b.next + l.align
    → l.size ≤ b.heap_end
    → b.heap_end < usize_mod
    → alloc b l ≡ (0, record b { next = l.size; allocations = add_usize b.allocations 1 })
unfolding alloc
alloc_wraps b l a h wrap fits low = let up = align_up_wrap b.next a h wrap in ground (arith, up)

-- On a valid allocator the used and the free bytes make up the heap; after a reset nothing is
-- used, and after init_heap in the lower half of the address space all that was given is free.
pub stats_add_up :
    {b : BumpAllocator} (a : LockedAllocator) (start size : ℕ)
    → IsValid b
    → start + size ≤ 2 ^ 63
    → ((stats b).used + (stats b).free ≡ (stats b).heap_size)
      × ((stats (reset b)).used ≡ 0)
      × ((stats (reset b)).free ≡ (stats b).heap_size)
      × IsValid (reset b)
      × (heap_stats (init_heap a start size)
          ≡ record { heap_start = start; heap_size = size; used = 0; free = size })
unfolding stats reset heap_stats init_heap init
stats_add_up a start size v h = (omega arith, omega arith, omega arith, omega arith, ground arith)
