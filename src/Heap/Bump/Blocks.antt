-- ===== src/Heap/Bump/Blocks.antt =====
-- The blocks of a sequence of calls of `alloc` (kernel/src/allocator/bump.rs) lie apart.
use aetherion_os.Base.{
  ℕ, ◌+◌, ◌%◌, ◌<◌, ◌≤◌, ◌≡◌, ◌⊎◌, inl, inr, List, [], ◌∷◌, All, All-map, ◌==◌, if◌then◌else◌,
  arith, Bool-cases,
}
use mathlib.Core.Path.{subst}
use aetherion_os.Heap.Layout.{Layout, IsLayout, Span, Apart, AllApart}
use aetherion_os.Heap.Bump.{BumpAllocator, alloc}
use aetherion_os.Heap.Bump.Calls.{IsValid, alloc-Bumped, Bumped-IsValid}

-- A sequence of calls: the pointers that they return.
abbrev pub run : BumpAllocator → List Layout → List ℕ
run b [] = []
run b (l ∷ ls) = (alloc b l).0 ∷ run (alloc b l).1 ls

-- The blocks that requests got, by the size that each asked for; null is no block.
abbrev pub granted : List Layout → List ℕ → List Span
granted [] ps = []
granted (l ∷ ls) [] = []
granted (l ∷ ls) (p ∷ ps) =
    if p == 0 then granted ls ps else record { lo = p; hi = p + l.size } ∷ granted ls ps

-- What each request is answered when the memory from `top` to `end` is free: the first aligned
-- address, which takes what lies below the end of the block, or null if no aligned block fits.
abbrev pub Serves : ℕ → ℕ → List Layout → List ℕ → Type 0
Serves end top [] [] = Unit
Serves end top [] (p ∷ ps) = ⊥
Serves end top (l ∷ ls) [] = ⊥
Serves end top (l ∷ ls) (p ∷ ps) =
    ((p % l.align ≡ 0)
      × (top ≤ p)
      × (p < top + l.align)
      × (p + l.size ≤ end)
      × Serves end (p + l.size) ls ps)
    ⊎ ((p ≡ 0) × ((q : ℕ) → top ≤ q → q % l.align ≡ 0 → end < q + l.size) × Serves end top ls ps)

abbrev pub Between : ℕ → ℕ → Span → Type 0
Between from to s = (from ≤ s.lo) × (s.hi ≤ to)

run-Serves :
    (ls : List Layout) {b : BumpAllocator}
    → IsValid b
    → All IsLayout ls
    → Serves b.heap_end b.next ls (run b ls)
run-Serves [] v h = tt
run-Serves (l ∷ ls) {b} v h =
    let o = alloc-Bumped l v h.0 in
    let rest = run-Serves ls (Bumped-IsValid l (alloc b l) v o) h.1 in
    elim o [
      | inl t ↦ inl (
        t.aligned,
        t.from,
        t.first,
        omega (arith, t.end, t.fits),
        subst (λ (e : ℕ). Serves e ((alloc b l).0 + l.size) ls (run (alloc b l).1 ls)) t.stop
            (subst (λ (n : ℕ). Serves (alloc b l).1.heap_end n ls (run (alloc b l).1 ls)) t.end
              rest),
      )
      | inr (null, unchanged, none) ↦ inr (
        null,
        none,
        subst (λ (c : BumpAllocator). Serves c.heap_end c.next ls (run (alloc b l).1 ls)) unchanged
            rest,
      )
    ]

-- Requests that are served so get blocks between `top` and `end` that lie apart.
served_blocks :
    (end top : ℕ) (ls : List Layout) (ps : List ℕ)
    → Serves end top ls ps
    → All (Between top end) (granted ls ps) × AllApart (granted ls ps)
served_blocks end top [] [] s = (tt, tt)
served_blocks end top [] (p ∷ ps) s = elim s [ ]
served_blocks end top (l ∷ ls) [] s = elim s [ ]
served_blocks end top (l ∷ ls) (p ∷ ps) (inr (null, none, s)) =
    rw null (served_blocks end top ls ps s)
served_blocks end top (l ∷ ls) (p ∷ ps) (inl (aligned, from, first, fits, s)) =
    let rest = served_blocks end (p + l.size) ls ps s in
    let widened =
      All-map (Between (p + l.size) end) (Between top end) (granted ls ps)
        (λ t i. (omega (arith, i.0, from), i.1)) rest.0 in
    let apart =
      All-map (Between (p + l.size) end) (Apart (record { lo = p; hi = p + l.size }))
        (granted ls ps) (λ t i a lo hi lo' hi'. absurd (omega (arith, i.0))) rest.0 in
    elim (Bool-cases (p == 0)) [
      | inl null ↦ rw null (widened, rest.1)
      | inr taken ↦ rw taken (((from, fits), widened), (apart, rest.1))
    ]

-- Whatever the requests with lawful layouts, a valid bump allocator answers each in turn with the
-- first aligned address behind the blocks before it, if a block of the size asked for then ends in
-- the heap, and otherwise with null, which it does only if no aligned block fits behind them. So
-- the blocks of those sizes, but for one at address 0, lie inside the heap region and have no
-- address in common.
pub run_blocks :
    (ls : List Layout) {b : BumpAllocator}
    → IsValid b
    → All IsLayout ls
    → Serves b.heap_end b.next ls (run b ls)
      × All (Between b.heap_start b.heap_end) (granted ls (run b ls))
      × AllApart (granted ls (run b ls))
run_blocks ls {b} v h =
    let served = run-Serves ls v h in
    let (inside, apart) = served_blocks b.heap_end b.next ls (run b ls) served in
    (
      served,
      All-map (Between b.next b.heap_end) (Between b.heap_start b.heap_end) (granted ls (run b ls))
          (λ s i. (omega (arith, v.above, i.0), i.1)) inside,
      apart,
    )
