-- ===== src/Heap/Bump/Calls.antt =====
-- What each call of `alloc` (kernel/src/allocator/bump.rs) does.
use aetherion_os.Base.{
  ℕ, ◌+◌, ◌%◌, ◌^◌, ◌≤◌, ◌<◌, ◌≡◌, refl, ◌⊎◌, inl, inr, arith, dec_lt, dec_le, lt→ltb, le→ltb,
}
use aetherion_os.Base.Word.{usize_mod, add_usize}
use aetherion_os.Base.Align.{align_up, align_up_lem, IsAlign-pos, multiples_apart}
use aetherion_os.Heap.Layout.{Layout, IsLayout}
use aetherion_os.Heap.Bump.{BumpAllocator, init, alloc}

-- The heap lies in the lower half of the address space, where no alignment wraps.
pub record IsValid (b : BumpAllocator) : Type 0 where
  pub above : b.heap_start ≤ b.next
  pub within : b.next ≤ b.heap_end
  pub low : b.heap_end ≤ 2 ^ 63

pub init-IsValid :
    (b : BumpAllocator) (start size : ℕ) → start + size ≤ 2 ^ 63 → IsValid (init b start size)
unfolding init
init-IsValid b start size h = omega arith

-- A call that took a block at `p`: the first aligned address from `next` on. The block lies in
-- the heap, and `next` moves to its end.
pub record Taken (b : BumpAllocator) (l : Layout) (p : ℕ) (b' : BumpAllocator) : Type 0 where
  pub aligned : p % l.align ≡ 0
  pub from : b.next ≤ p
  pub first : p < b.next + l.align
  pub end : b'.next ≡ p + l.size
  pub fits : b'.next ≤ b.heap_end
  pub counted : b'.allocations ≡ add_usize b.allocations 1
  pub start : b'.heap_start ≡ b.heap_start
  pub stop : b'.heap_end ≡ b.heap_end

-- No aligned block of that size lies between `next` and the end of the heap.
abbrev pub NoRoom : BumpAllocator → Layout → Type 0
NoRoom b l = (q : ℕ) → b.next ≤ q → q % l.align ≡ 0 → b.heap_end < q + l.size

abbrev pub Bumped : BumpAllocator → Layout → ℕ × BumpAllocator → Type 0
Bumped b l r = Taken b l r.0 r.1 ⊎ ((r.0 ≡ 0) × (r.1 ≡ b) × NoRoom b l)

alloc_fits :
    (b : BumpAllocator) (l : Layout)
    → align_up b.next l.align + l.size ≤ b.heap_end
    → b.heap_end ≤ 2 ^ 63
    → alloc b l ≡ (
      align_up b.next l.align,
      record b { next = align_up b.next l.align + l.size; allocations = add_usize b.allocations 1 },
    )
unfolding alloc
alloc_fits b l h low = ground (
  arith,
  lt→ltb (align_up b.next l.align + l.size) usize_mod (omega arith),
  le→ltb b.heap_end (align_up b.next l.align + l.size) h,
)

alloc_over :
    (b : BumpAllocator) (l : Layout)
    → b.heap_end < align_up b.next l.align + l.size
    → alloc b l ≡ (0, b)
unfolding alloc
alloc_over b l h = ground arith

-- If the first aligned block is too long, so is every other.
no_room :
    (b : BumpAllocator) (l : Layout) (start : ℕ)
    → start < b.next + l.align
    → start % l.align ≡ 0
    → b.heap_end < start + l.size
    → NoRoom b l
no_room b l start first aligned over q h m = elim (dec_lt q start) [
  | yes lt ↦ let gap = multiples_apart l.align start q aligned m lt in absurd (omega (arith, gap))
  | no ge ↦ omega arith
]

-- On a valid bump allocator and for a lawful layout alloc returns the first aligned address from
-- next on if the block fits the heap, and otherwise null with no change, which it does only if no
-- aligned block fits.
pub alloc-Bumped :
    {b : BumpAllocator} (l : Layout) → IsValid b → IsLayout l → Bumped b l (alloc b l)
alloc-Bumped {b} l v hl =
    let pos = IsAlign-pos hl.align in
    let up = align_up_lem b.next hl.align (omega arith) in
    elim (dec_le (align_up b.next l.align + l.size) b.heap_end) [
      | yes fits ↦ rw (alloc_fits b l fits v.low) (
          inl (record {
            aligned = up.2;
            from = up.0;
            first = up.1;
            end = refl;
            fits = fits;
            counted = refl;
            start = refl;
            stop = refl;
          }))
      | no full ↦
          rw (alloc_over b l (omega arith))
            (inr (refl, refl, no_room b l (align_up b.next l.align) up.1 up.2 (omega arith)))
    ]

Taken-IsValid :
    {b b' : BumpAllocator} (l : Layout) (p : ℕ) → IsValid b → Taken b l p b' → IsValid b'
Taken-IsValid l p v t = omega (arith, t.from, t.end, t.fits, t.start, t.stop, v.above, v.low)

pub Bumped-IsValid :
    {b : BumpAllocator} (l : Layout) (r : ℕ × BumpAllocator)
    → IsValid b
    → Bumped b l r
    → IsValid r.1
Bumped-IsValid l r v (inl t) = Taken-IsValid l r.0 v t
Bumped-IsValid l r v (inr (_, unchanged, _)) = rw unchanged v
