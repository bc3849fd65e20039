-- ===== src/Heap/LinkedList/Reuse.antt =====
-- `dealloc` (kernel/src/allocator/linked_list.rs), alone and beside `alloc`.
use aetherion_os.Base.{
  ℕ, ◌+◌, ◌-◌, ◌%◌, ◌^◌, ◌≤◌, ◌<◌, ◌≡◌, dec_lt, refl, sym, ap, ◌∙◌, inl, inr, some, ◌∷◌, done,
  Returns, done-injective, arith,
}
use mathlib.Core.Path.{subst}
use aetherion_os.Base.Align.{IsAlign, align_up, align_up_lem, IsAlign-pos, multiples_apart}
use aetherion_os.Heap.Layout.{Layout, IsLayout, Span}
use aetherion_os.Heap.LinkedList.{
  ListNode, LinkedListAllocator, Found, find_region, alloc_from_region, alloc, dealloc, block_size,
}
use aetherion_os.Heap.LinkedList.Region.{block_size_lem}
use aetherion_os.Heap.LinkedList.Valid.{IsValid, ApartFrom, free_bytes, add_free_region_lem}
use aetherion_os.Heap.LinkedList.Alloc.{Carved, Outcome, run_exact}
use aetherion_os.Heap.LinkedList.Carve.{alloc-Outcome}

-- The addresses of a block of that layout at `ptr`.
abbrev pub block : ℕ → Layout → Span
block ptr l = record { lo = ptr; hi = ptr + block_size l }

-- A block that `dealloc` can take: a node can stand at its start, and no part of it is free.
pub record IsBlock (a : LinkedListAllocator) (ptr : ℕ) (l : Layout) : Type 0 where
  pub layout : IsLayout l
  pub aligned : ptr % 8 ≡ 0
  pub above : 0 < ptr
  pub low : ptr + block_size l ≤ 2 ^ 63
  pub apart : ApartFrom (block ptr l) a.regions

-- The block is the first region, all others stay.
abbrev pub Freed : LinkedListAllocator → ℕ → Layout → LinkedListAllocator → Type 0
Freed a ptr l a' =
    IsValid a' × (a'.regions ≡ record { addr = ptr; size = block_size l } ∷ a.regions)

pub dealloc-Freed :
    {a : LinkedListAllocator} (ptr : ℕ) (l : Layout)
    → IsValid a
    → IsBlock a ptr l
    → Returns (dealloc a ptr l) (Freed a ptr l)
unfolding dealloc
dealloc-Freed ptr l v b =
    let size = block_size_lem l (omega (arith, b.layout.size)) in
    add_free_region_lem ptr (block_size l) v
      (record { aligned = b.aligned; room = size.1; above = b.above; low = b.low }) b.apart

pub Carved-IsBlock :
    {a a' : LinkedListAllocator} (l : Layout) (p : ℕ)
    → IsLayout l
    → Carved a l p a'
    → IsBlock a' p l
Carved-IsBlock l p hl c = record {
  layout = hl;
  aligned = c.node_aligned;
  above = c.nonnull;
  low = c.low;
  apart = c.apart;
}

align_up_aligned :
    (x : ℕ) {align : ℕ} → IsAlign align → x ≤ 2 ^ 63 → x % align ≡ 0 → align_up x align ≡ x
align_up_aligned x {align} al low m =
    let up = align_up_lem x al (omega (arith, IsAlign-pos al, low)) in
    elim (dec_lt x (align_up x align)) [
      | yes lt ↦ absurd (omega (arith, multiples_apart align (align_up x align) x up.2 m lt, up.1))
      | no ge ↦ omega (arith, up.0, ge)
    ]

-- A region of exactly the size asked for, at an aligned address, is handed out from its start.
fits_exactly :
    (ptr size : ℕ) {align : ℕ}
    → IsAlign align
    → ptr % align ≡ 0
    → ptr + size ≤ 2 ^ 63
    → alloc_from_region (record { addr = ptr; size = size }) size align ≡ some ptr
unfolding alloc_from_region
fits_exactly ptr size {align} al m low =
    let e = align_up_aligned ptr al (omega arith) m in
    rw (e, alloc_from_region) (ground (arith, low))

-- What is known when a block that `alloc` returned is freed: it is handed out again by the next
-- call for the same layout, and only the padding in front of it is gone from the free bytes.
pub record Again (a a1 : LinkedListAllocator) (l : Layout) (p : ℕ) (a2 : LinkedListAllocator)
    : Type 0 where
  pub carved : Carved a l p a1
  pub valid : IsValid a2
  pub same : alloc a2 l ≡ done (p, a1)
  pub lost : free_bytes a2.regions + (p - carved.region.addr) ≡ free_bytes a.regions

alloc_head :
    (a1 a2 : LinkedListAllocator) (l : Layout) (p : ℕ)
    → IsBlock a1 p l
    → p % l.align ≡ 0
    → a2.regions ≡ record { addr = p; size = block_size l } ∷ a1.regions
    → alloc a2 l ≡ done (p, a1)
unfolding find_region
alloc_head a1 a2 l p b m e =
    let head : ListNode = record { addr = p; size = block_size l } in
    let f : Found = record { region = head; alloc_start = p; remaining = a1.regions } in
    run_exact a2 l f
      (rw (e, find_region, fits_exactly p (block_size l) b.layout.align m b.low) refl) b.low refl

pub Outcome-Carved :
    {a a1 : LinkedListAllocator} (l : Layout) (p : ℕ)
    → IsValid a
    → IsLayout l
    → alloc a l ≡ done (p, a1)
    → 0 < p
    → Carved a l p a1
Outcome-Carved {a} {a1} l p v hl run pos =
    let (r, run', o) = alloc-Outcome l v hl in
    elim (subst (Outcome a l) (done-injective (sym run' ∙ run)) o) [
      | inl c ↦ c
      | inr (null, _, _) ↦ absurd (omega (arith, null, pos))
    ]

-- On a valid free list, freeing the block that alloc has just returned does not panic and gives a
-- valid free list; alloc then returns the same block again, and the free bytes are those from
-- before both calls less the padding in front of the block.
pub dealloc-alloc :
    {a a1 : LinkedListAllocator} (l : Layout) (p : ℕ)
    → IsValid a
    → IsLayout l
    → alloc a l ≡ done (p, a1)
    → 0 < p
    → Returns (dealloc a1 p l) (Again a a1 l p)
dealloc-alloc {a} {a1} l p v hl run pos =
    let c = Outcome-Carved l p v hl run pos in
    let b = Carved-IsBlock l p hl c in
    let (a2, run2, (valid, e)) = dealloc-Freed p l c.valid b in
    (
      a2,
      run2,
      record {
        carved = c;
        valid = valid;
        same = alloc_head a1 a2 l p b c.aligned e;
        lost = omega (arith, ap free_bytes e, c.bytes);
      },
    )
