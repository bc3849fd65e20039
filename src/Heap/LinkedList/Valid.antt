-- ===== src/Heap/LinkedList/Valid.antt =====
-- The invariant of the free list (kernel/src/allocator/linked_list.rs): regions with room for a
-- node, with no address in common.
use aetherion_os.Base.{
  ℕ, ◌+◌, ◌%◌, ◌≤◌, ◌≡◌, refl, List, [], ◌∷◌, ◌++◌, All, All-map, All-drop, Returns, arith, le→leb,
  eq→==,
}
use aetherion_os.Heap.Layout.{Span, Apart}
use aetherion_os.Heap.LinkedList.{ListNode, LinkedListAllocator, add_free_region}
use aetherion_os.Heap.LinkedList.Region.{IsRegion}

abbrev pub span : ListNode → Span
span n = record { lo = n.addr; hi = n.addr + n.size }

-- The span lies apart from every region of the list.
abbrev pub ApartFrom : Span → List ListNode → Type 0
ApartFrom s l = All (λ n. Apart s (span n)) l

abbrev pub Disjoint : List ListNode → Type 0
Disjoint [] = Unit
Disjoint (n ∷ l) = ApartFrom (span n) l × Disjoint l

pub record IsValid (a : LinkedListAllocator) : Type 0 where
  pub regions : All IsRegion a.regions
  pub disjoint : Disjoint a.regions

-- The bytes of all regions.
abbrev pub free_bytes : List ListNode → ℕ
free_bytes [] = 0
free_bytes (n ∷ l) = n.size + free_bytes l

pub free_bytes-drop :
    (l k : List ListNode) (n : ListNode) → free_bytes (l ++ (n ∷ k)) ≡ n.size + free_bytes (l ++ k)
free_bytes-drop [] k n = refl
free_bytes-drop (m ∷ l) k n = omega (arith, free_bytes-drop l k n)

Apart-sym : (s t : Span) → Apart s t → Apart t s
Apart-sym s t h a lo hi lo' hi' = h a lo' hi' lo hi

pub Disjoint-drop :
    (l k : List ListNode) (n : ListNode)
    → Disjoint (l ++ (n ∷ k))
    → ApartFrom (span n) (l ++ k) × Disjoint (l ++ k)
Disjoint-drop [] k n h = h
Disjoint-drop (m ∷ l) k n h =
    let rest = Disjoint-drop l k n h.1 in
    let first = All-drop (λ x. Apart (span m) (span x)) l k n h.0 in
    ((Apart-sym (span m) (span n) first.0, rest.0), (first.1, rest.1))

-- A part of a span lies apart from whatever the span does.
pub ApartFrom-part :
    (s t : Span) (l : List ListNode) → s.lo ≤ t.lo → t.hi ≤ s.hi → ApartFrom s l → ApartFrom t l
ApartFrom-part s t l lo hi =
    All-map (λ n. Apart s (span n)) (λ n. Apart t (span n)) l
      (λ n h a from to from' to'. h a (omega arith) (omega arith) from' to')

-- A region that is apart from the list and has room for a node is added in front.
pub add_free_region_lem :
    {a : LinkedListAllocator} (addr size : ℕ)
    → IsValid a
    → IsRegion (record { addr = addr; size = size })
    → ApartFrom (record { lo = addr; hi = addr + size }) a.regions
    → Returns
        (add_free_region a addr size)
        λ a'. IsValid a' × (a'.regions ≡ record { addr = addr; size = size } ∷ a.regions)
unfolding add_free_region
add_free_region_lem {a} addr size v r apart = (
  record { regions = record { addr = addr; size = size } ∷ a.regions },
  rw (le→leb 16 size r.room, eq→== (addr % 8) 0 r.aligned) refl,
  (record { regions = (r, v.regions); disjoint = (apart, v.disjoint) }, refl),
)
