-- ===== src/Heap/Bump.antt =====
-- kernel/src/allocator/bump.rs, and the global instance of kernel/src/allocator/mod.rs that hands
-- every call on to it under a lock. A pointer is its address; null is 0.
pub mod Calls
pub mod Blocks
pub mod Limits
mod Tests
use aetherion_os.Base.{ℕ, ◌+◌, ◌-◌, ◌<◌, ltb, leb, if◌then◌else◌, Option, none, some}
use aetherion_os.Base.Word.{usize_mod, add_usize, sub_usize}
use aetherion_os.Base.Align.{align_up}
use aetherion_os.Heap.Layout.{Layout}

pub record BumpAllocator : Type 0 where
  pub heap_start : ℕ
  pub heap_end : ℕ
  pub next : ℕ
  pub allocations : ℕ

pub new : BumpAllocator
new = record { heap_start = 0; heap_end = 0; next = 0; allocations = 0 }

pub init : BumpAllocator → ℕ → ℕ → BumpAllocator
init b heap_start heap_size = record {
  heap_start = heap_start;
  heap_end = add_usize heap_start heap_size;
  next = heap_start;
  allocations = 0;
}

abbrev pub checked_add : ℕ → ℕ → Option ℕ
checked_add a b = if ltb (a + b) usize_mod then some (a + b) else none

-- The source leaves an overflow of the end by `?`, in a function that returns a pointer; here
-- that is the null pointer.
pub alloc : BumpAllocator → Layout → ℕ × BumpAllocator
alloc b layout =
    let alloc_start = align_up b.next layout.align in
    elim (checked_add alloc_start layout.size) [
      | none ↦ (0, b)
      | some alloc_end ↦
          if ltb b.heap_end alloc_end
          then (0, b)
          else (alloc_start, record b { next = alloc_end; allocations = add_usize b.allocations 1 })
    ]

pub dealloc : BumpAllocator → ℕ → Layout → BumpAllocator
dealloc b ptr layout = b

pub record HeapStats : Type 0 where
  pub heap_start : ℕ
  pub heap_size : ℕ
  pub used : ℕ
  pub free : ℕ

-- `saturating_sub` is the subtraction of ℕ.
pub stats : BumpAllocator → HeapStats
stats b = record {
  heap_start = b.heap_start;
  heap_size = sub_usize b.heap_end b.heap_start;
  used = b.next - b.heap_start;
  free = b.heap_end - b.next;
}

pub reset : BumpAllocator → BumpAllocator
reset b = record b { next = b.heap_start; allocations = 0 }

pub record LockedAllocator : Type 0 where
  pub inner : BumpAllocator

pub global_alloc : LockedAllocator → Layout → ℕ × LockedAllocator
global_alloc a layout = let (p, b) = alloc a.inner layout in (p, record { inner = b })

pub global_dealloc : LockedAllocator → ℕ → Layout → LockedAllocator
global_dealloc a ptr layout = record { inner = dealloc a.inner ptr layout }

pub init_heap : LockedAllocator → ℕ → ℕ → LockedAllocator
init_heap a heap_start heap_size = record { inner = init a.inner heap_start heap_size }

pub heap_stats : LockedAllocator → HeapStats
heap_stats a = stats a.inner
