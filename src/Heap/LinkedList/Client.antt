-- ===== src/Heap/LinkedList/Client.antt =====
-- The heap of kernel/src/allocator/linked_list.rs under a client that frees only what it holds:
-- its calls as a step relation.
use aetherion_os.Base.{
  ℕ, ◌+◌, ◌%◌, ◌^◌, ◌≤◌, ◌<◌, ◌≡◌, sym, ap, ◌∙◌, List, [], ◌∷◌, ◌++◌, done, All, All-map, All-both,
  All-drop, Returns, arith, done-injective, inl, inr,
}
use mathlib.Core.Path.{subst}
use aetherion_os.Heap.Layout.{Layout, IsLayout, Span, Apart}
use aetherion_os.Heap.LinkedList.{LinkedListAllocator, new, init, alloc, dealloc}
use aetherion_os.Heap.LinkedList.Valid.{IsValid, ApartFrom, free_bytes, add_free_region_lem}
use aetherion_os.Heap.LinkedList.Alloc.{Carved, Outcome}
use aetherion_os.Heap.LinkedList.Carve.{alloc-Outcome}
use aetherion_os.Heap.LinkedList.Reuse.{
  block, IsBlock, Freed, dealloc-Freed, Carved-IsBlock, Outcome-Carved,
}

-- A block that a client holds, with the layout that it asked for.
pub record Block : Type 0 where
  pub ptr : ℕ
  pub layout : Layout

pub record World : Type 0 where
  pub heap : LinkedListAllocator
  pub held : List Block

pub data Step : World → World → Type 0 where
  allocate :
      (w : World) (l : Layout) (p : ℕ) (a' : LinkedListAllocator)
      → IsLayout l
      → alloc w.heap l ≡ done (p, a')
      → 0 < p
      → Step w (record { heap = a'; held = record { ptr = p; layout = l } ∷ w.held })
  refuse :
      (w : World) (l : Layout) (a' : LinkedListAllocator)
      → IsLayout l
      → alloc w.heap l ≡ done (0, a')
      → Step w (record { heap = a'; held = w.held })
  deallocate :
      (w : World) (before after : List Block) (b : Block) (a' : LinkedListAllocator)
      → w.held ≡ before ++ (b ∷ after)
      → dealloc w.heap b.ptr b.layout ≡ done a'
      → Step w (record { heap = a'; held = before ++ after })

pub data Reach (s : World) : World → Type 0 where
  here : Reach s s
  next : {t u : World} → Reach s t → Step t u → Reach s u

abbrev pub bytes_of : Block → Span
bytes_of b = block b.ptr b.layout

abbrev pub HeldApart : List Block → Type 0
HeldApart [] = Unit
HeldApart (b ∷ l) = All (λ c. Apart (bytes_of b) (bytes_of c)) l × HeldApart l

abbrev pub Live : LinkedListAllocator → Block → Type 0
Live a b = IsBlock a b.ptr b.layout

-- The free list is valid; no byte that the client holds is free or is held twice.
pub record IsHeapSound (w : World) : Type 0 where
  pub valid : IsValid w.heap
  pub live : All (Live w.heap) w.held
  pub apart : HeldApart w.held

HeldApart-drop :
    (xs ys : List Block) (b : Block)
    → HeldApart (xs ++ (b ∷ ys))
    → All (λ c. Apart (bytes_of b) (bytes_of c)) (xs ++ ys) × HeldApart (xs ++ ys)
HeldApart-drop [] ys b h = h
HeldApart-drop (x ∷ xs) ys b h =
    let r = HeldApart-drop xs ys b h.1 in
    let s = All-drop (λ c. Apart (bytes_of x) (bytes_of c)) xs ys b h.0 in
    (((λ a lo hi lo' hi'. s.0 a lo' hi' lo hi), r.0), (s.1, r.1))

with_apart :
    {a a' : LinkedListAllocator} (b : Block)
    → Live a b
    → ApartFrom (bytes_of b) a'.regions
    → Live a' b
with_apart b live apart = record {
  layout = live.layout;
  aligned = live.aligned;
  above = live.above;
  low = live.low;
  apart = apart;
}

-- A held block stays clear of the free list when a block is carved out of it.
Live-kept :
    {a a' : LinkedListAllocator} (l : Layout) (p : ℕ) (b : Block)
    → Carved a l p a'
    → Live a b
    → Live a' b
Live-kept l p b c live = with_apart b live (c.keeps (bytes_of b) live.apart).1

allocate-IsHeapSound :
    {w : World} (l : Layout) (p : ℕ) (a' : LinkedListAllocator)
    → IsHeapSound w
    → IsLayout l
    → Carved w.heap l p a'
    → IsHeapSound (record { heap = a'; held = record { ptr = p; layout = l } ∷ w.held })
allocate-IsHeapSound {w} l p a' s hl c = record {
  valid = c.valid;
  live = (
    Carved-IsBlock l p hl c,
    All-map (Live w.heap) (Live a') w.held (λ b live. Live-kept l p b c live) s.live,
  );
  apart = (
    All-map (Live w.heap) (λ b. Apart (block p l) (bytes_of b)) w.held
        (λ b live x lo hi lo' hi'. (c.keeps (bytes_of b) live.apart).0 x lo' hi' lo hi) s.live,
    s.apart,
  );
}

free-IsHeapSound :
    {w : World} (before after : List Block) (b : Block) (a' : LinkedListAllocator)
    → IsHeapSound w
    → w.held ≡ before ++ (b ∷ after)
    → dealloc w.heap b.ptr b.layout ≡ done a'
    → IsHeapSound (record { heap = a'; held = before ++ after })
free-IsHeapSound {w} before after b a' s split run =
    let (mine, live) =
      All-drop (Live w.heap) before after b (subst (All (Live w.heap)) split s.live) in
    let (apart, rest) = HeldApart-drop before after b (subst HeldApart split s.apart) in
    let (a'', run', freed') = dealloc-Freed b.ptr b.layout s.valid mine in
    let freed = subst (Freed w.heap b.ptr b.layout) (done-injective (sym run' ∙ run)) freed' in
    record {
      valid = freed.0;
      live =
          All-map (λ c. Apart (bytes_of b) (bytes_of c) × Live w.heap c) (Live a') (before ++ after)
            (λ c both. with_apart c both.1 (
              subst (ApartFrom (bytes_of c)) (sym freed.1)
                (λ x lo hi lo' hi'. both.0 x lo' hi' lo hi, both.1.apart)))
            (All-both (λ c. Apart (bytes_of b) (bytes_of c)) (Live w.heap) (before ++ after) apart
              live);
      apart = rest;
    }

refuse-IsHeapSound :
    {w : World} (l : Layout) (a' : LinkedListAllocator)
    → IsHeapSound w
    → IsLayout l
    → alloc w.heap l ≡ done (0, a')
    → IsHeapSound (record { heap = a'; held = w.held })
refuse-IsHeapSound {w} l a' s hl run =
    let (r, run', o) = alloc-Outcome l s.valid hl in
    elim (subst (Outcome w.heap l) (done-injective (sym run' ∙ run)) o) [
      | inl c ↦ absurd (omega (arith, c.nonnull))
      | inr (_, same, _) ↦
          subst (λ (h : LinkedListAllocator). IsHeapSound (record { heap = h; held = w.held }))
            (sym same) s
    ]

Step-IsHeapSound : {t u : World} → Step t u → IsHeapSound t → IsHeapSound u
Step-IsHeapSound (allocate w l p a' hl run pos) s =
    allocate-IsHeapSound l p a' s hl (Outcome-Carved l p s.valid hl run pos)
Step-IsHeapSound (refuse w l a' hl run) s = refuse-IsHeapSound l a' s hl run
Step-IsHeapSound (deallocate w before after b a' split run) s =
    free-IsHeapSound before after b a' s split run

-- Whatever calls a client makes that frees only blocks it was given and holds, with the layout it
-- asked for, the free list stays valid, and no byte of a held block is free or belongs to another
-- held block.
pub Reach-IsHeapSound : {t u : World} → IsHeapSound t → Reach t u → IsHeapSound u
Reach-IsHeapSound s here = s
Reach-IsHeapSound s (next r st) = Step-IsHeapSound st (Reach-IsHeapSound s r)

-- In a sound world no call panics: alloc for a lawful layout returns a carved block or null, and
-- dealloc of a held block returns with that block as the first free region.
pub calls_return :
    {w : World} (l : Layout) (before after : List Block) (b : Block)
    → IsHeapSound w
    → IsLayout l
    → w.held ≡ before ++ (b ∷ after)
    → Returns (alloc w.heap l) (Outcome w.heap l)
      × Returns (dealloc w.heap b.ptr b.layout) (Freed w.heap b.ptr b.layout)
calls_return {w} l before after b s hl split =
    let (mine, _) =
      All-drop (Live w.heap) before after b (subst (All (Live w.heap)) split s.live) in
    (alloc-Outcome l s.valid hl, dealloc-Freed b.ptr b.layout s.valid mine)

-- A heap that starts on a node boundary above address 0, has room for a node and lies in the lower
-- half of the address space is initialised to a sound world with all its bytes free.
pub init-IsHeapSound :
    (start size : ℕ)
    → start % 8 ≡ 0
    → 0 < start
    → 16 ≤ size
    → start + size ≤ 2 ^ 63
    → Returns
        (init new start size)
        λ a. IsHeapSound (record { heap = a; held = [] }) × (free_bytes a.regions ≡ size)
unfolding init new
init-IsHeapSound start size aligned above room low =
    let empty : IsValid new = record { regions = tt; disjoint = tt } in
    let (a, run, (valid, e)) =
      add_free_region_lem start size empty
        (record { aligned = aligned; room = room; above = above; low = low }) tt in
    (a, run, (record { valid = valid; live = tt; apart = tt }, omega (arith, ap free_bytes e)))
