-- ===== src/Heap/LinkedList/Alloc.antt =====
-- What `alloc` (kernel/src/allocator/linked_list.rs) promises, and its two runs that find a region.
use aetherion_os.Base.{
  ℕ, ◌+◌, ◌-◌, ◌%◌, ◌^◌, ◌≤◌, ◌<◌, ◌≡◌, refl, true, false, ◌⊎◌, some, List, ◌∷◌, ◌++◌, done, ltb,
  arith, lt→ltb,
}
use aetherion_os.Base.Word.{usize_mod, sub_usize}
use aetherion_os.Heap.Layout.{Layout, Span, Apart}
use aetherion_os.Heap.LinkedList.{
  ListNode, LinkedListAllocator, Found, end_addr, find_region, alloc, add_free_region, block_size,
}
use aetherion_os.Heap.LinkedList.Region.{IsBlockSize, NoneHolds}
use aetherion_os.Heap.LinkedList.Valid.{IsValid, ApartFrom, free_bytes}

-- A block that was carved out of the free list.
pub record Carved (a : LinkedListAllocator) (l : Layout) (p : ℕ) (a' : LinkedListAllocator)
    : Type 0 where
  pub region : ListNode
  pub before : List ListNode
  pub after : List ListNode
  pub split : a.regions ≡ before ++ (region ∷ after)
  pub first : NoneHolds before (block_size l) l.align
  pub aligned : p % l.align ≡ 0
  pub start : p < region.addr + l.align
  pub inside : (region.addr ≤ p) × (p + block_size l ≤ region.addr + region.size)
  pub nonnull : 0 < p
  pub node_aligned : p % 8 ≡ 0
  pub low : p + block_size l ≤ 2 ^ 63
  pub large : l.size ≤ block_size l
  pub sized : IsBlockSize l (block_size l)
  pub valid : IsValid a'
  pub apart : ApartFrom (record { lo = p; hi = p + block_size l }) a'.regions
  pub keeps :
      (s : Span)
      → ApartFrom s a.regions
      → Apart s (record { lo = p; hi = p + block_size l }) × ApartFrom s a'.regions
  pub bytes : free_bytes a'.regions + block_size l + (p - region.addr) ≡ free_bytes a.regions

abbrev pub Outcome : LinkedListAllocator → Layout → ℕ × LinkedListAllocator → Type 0
Outcome a l r =
    Carved a l r.0 r.1
    ⊎ ((r.0 ≡ 0)
        × (r.1 ≡ a)
        × (IsBlockSize l (block_size l) × NoneHolds a.regions (block_size l) l.align))

-- The rest behind the block is computed without a wrap.
excess_lem :
    (n : ListNode) (e : ℕ)
    → n.addr + n.size ≤ 2 ^ 63
    → e ≤ n.addr + n.size
    → sub_usize (end_addr n) e ≡ n.addr + n.size - e
excess_lem n e low to = omega arith

pub run_exact :
    (a : LinkedListAllocator) (l : Layout) (f : Found)
    → find_region a.regions (block_size l) l.align ≡ some f
    → f.region.addr + f.region.size ≤ 2 ^ 63
    → f.alloc_start + block_size l ≡ f.region.addr + f.region.size
    → alloc a l ≡ done (f.alloc_start, record { regions = f.remaining })
unfolding alloc
run_exact a l f run low e =
    let none_left : ltb 0 (sub_usize (end_addr f.region) (f.alloc_start + block_size l)) ≡ false =
      ground (arith, excess_lem f.region (f.alloc_start + block_size l) low) in
    rw (run, alloc, lt→ltb (f.alloc_start + block_size l) usize_mod (omega arith), none_left) refl

pub run_more :
    (a a' : LinkedListAllocator) (l : Layout) (f : Found)
    → find_region a.regions (block_size l) l.align ≡ some f
    → f.region.addr + f.region.size ≤ 2 ^ 63
    → f.alloc_start + block_size l < f.region.addr + f.region.size
    → add_free_region
        (record { regions = f.remaining })
        (f.alloc_start + block_size l)
        (f.region.addr + f.region.size - (f.alloc_start + block_size l))
      ≡ done a'
    → alloc a l ≡ done (f.alloc_start, a')
unfolding alloc
run_more a a' l f run low more added =
    let e = excess_lem f.region (f.alloc_start + block_size l) low (omega arith) in
    let left : ltb 0 (sub_usize (end_addr f.region) (f.alloc_start + block_size l)) ≡ true =
      ground arith in
    rw (run, alloc, lt→ltb (f.alloc_start + block_size l) usize_mod (omega arith), left, e, added)
      refl
