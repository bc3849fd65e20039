-- ===== src/Heap/LinkedList.antt =====
-- kernel/src/allocator/linked_list.rs: a heap with a list of free regions, first fit.
-- The nodes of the list stand at the start of the regions that they describe; the list is modelled
-- as the sequence of those nodes, which is what it is as long as no client writes to free memory.
pub mod Region
pub mod Search
pub mod Valid
pub mod Alloc
pub mod Carve
pub mod Reuse
pub mod Client
mod Tests
use aetherion_os.Base.{
  ℕ, ◌+◌, ◌-◌, ◌%◌, ◌<◌, max, ltb, leb, ◌==◌, ◌&&◌, if◌then◌else◌, Option, none, some, List, [],
  ◌∷◌, Run, done, panic, ◌>>=◌, ◌>>◌, assert,
}
use mathlib.Core.Option
use aetherion_os.Base.Word.{usize_mod, add_usize, sub_usize}
use aetherion_os.Base.Align.{align_up}
use aetherion_os.Heap.Layout.{Layout}
use aetherion_os.Heap.Bump.{checked_add}

-- `size_of::<ListNode>()` and `align_of::<ListNode>()` on x86_64: a `usize` and a pointer.
abbrev pub min_block_size : ℕ
min_block_size = 16

abbrev pub node_align : ℕ
node_align = 8

pub record ListNode : Type 0 where
  pub addr : ℕ
  pub size : ℕ

-- The nodes after the head, which itself describes no region.
pub record LinkedListAllocator : Type 0 where
  pub regions : List ListNode

pub new : LinkedListAllocator
new = record { regions = [] }

abbrev pub end_addr : ListNode → ℕ
end_addr n = add_usize n.addr n.size

pub add_free_region : LinkedListAllocator → ℕ → ℕ → Run LinkedListAllocator
add_free_region a addr size = do
  assert (leb min_block_size size)
  assert (addr % node_align == 0)
  done (record { regions = record { addr = addr; size = size } ∷ a.regions })

pub init : LinkedListAllocator → ℕ → ℕ → Run LinkedListAllocator
init a heap_start heap_size = add_free_region a heap_start heap_size

-- `none` is `Err(())`.
pub alloc_from_region : ListNode → ℕ → ℕ → Option ℕ
alloc_from_region region size align =
    let alloc_start = align_up region.addr align in
    elim (checked_add alloc_start size) [
      | none ↦ none
      | some alloc_end ↦
          let excess_size = sub_usize (end_addr region) alloc_end in
          if ltb (end_addr region) alloc_end
          then none
          else if ltb 0 excess_size && ltb excess_size min_block_size
          then none
          else some alloc_start
    ]

pub record Found : Type 0 where
  pub region : ListNode
  pub alloc_start : ℕ
  pub remaining : List ListNode

abbrev pub keep : ListNode → Found → Found
keep n f = record f { remaining = n ∷ f.remaining }

-- The first region that fits is unlinked.
pub find_region : List ListNode → ℕ → ℕ → Option Found
find_region [] size align = none
find_region (region ∷ l) size align = elim (alloc_from_region region size align) [
  | some alloc_start ↦ some (record { region = region; alloc_start = alloc_start; remaining = l })
  | none ↦ Option.map (keep region) (find_region l size align)
]

-- What `alloc` and `dealloc` make of a layout's size.
pub block_size : Layout → ℕ
block_size layout = align_up (max layout.size min_block_size) node_align

-- `checked_add(..).expect("overflow")` panics.
abbrev pub expect : Option ℕ → Run ℕ
expect none = panic
expect (some x) = done x

pub alloc : LinkedListAllocator → Layout → Run (ℕ × LinkedListAllocator)
alloc a layout =
    let size = block_size layout in
    elim (find_region a.regions size layout.align) [
      | none ↦ done (0, a)
      | some f ↦ expect (checked_add f.alloc_start size) >>= λ alloc_end.
          let excess_size = sub_usize (end_addr f.region) alloc_end in
          let rest : LinkedListAllocator = record { regions = f.remaining } in
          if ltb 0 excess_size
          then (add_free_region rest alloc_end excess_size >>= λ a'. done (f.alloc_start, a'))
          else done (f.alloc_start, rest)
    ]

pub dealloc : LinkedListAllocator → ℕ → Layout → Run LinkedListAllocator
dealloc a ptr layout = add_free_region a ptr (block_size layout)
