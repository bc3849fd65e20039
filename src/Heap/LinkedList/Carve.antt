-- ===== src/Heap/LinkedList/Carve.antt =====
-- Carving a block out of a region: `alloc` (kernel/src/allocator/linked_list.rs).
use aetherion_os.Base.{
  ℕ, ◌+◌, ◌-◌, ◌^◌, ◌≤◌, ◌≡◌, refl, sym, ap, ◌∙◌, inl, inr, none, some, List, All, All-map,
  All-both, All-front, All-drop, ◌∷◌, Returns, arith, Option,
}
use mathlib.Core.Path.{subst}
use aetherion_os.Base.Align.{IsAlign-pos}
use aetherion_os.Heap.Layout.{Layout, IsLayout, Span, Apart}
use aetherion_os.Heap.LinkedList.{
  ListNode, LinkedListAllocator, Found, find_region, alloc, alloc_from_region, block_size,
}
use aetherion_os.Heap.LinkedList.Region.{
  IsRegion, Fits, CannotHold, NoneHolds, alloc_from_region-Fits, alloc_from_region-CannotHold,
  block_size_lem, block_size-IsBlockSize,
}
use aetherion_os.Heap.LinkedList.Search.{NoneFits, IsFirstFit, Searched, find_region-Searched}
use aetherion_os.Heap.LinkedList.Valid.{
  IsValid, span, ApartFrom, Disjoint, Disjoint-drop, ApartFrom-part, free_bytes, free_bytes-drop,
  add_free_region_lem,
}
use aetherion_os.Heap.LinkedList.Alloc.{Carved, Outcome, run_exact, run_more}

-- What is known of the region found, of the regions that stay, and of the block in it.
record Whole (a : LinkedListAllocator) (l : Layout) (f : Found) : Type 0 where
  pub region : IsRegion f.region
  pub rest : IsValid (record { regions = f.remaining })
  pub apart : ApartFrom (span f.region) f.remaining
  pub fits : Fits f.region (block_size l) l.align f.alloc_start
  pub others :
      (s : Span) → ApartFrom s a.regions → Apart s (span f.region) × ApartFrom s f.remaining
  pub bytes : free_bytes a.regions ≡ f.region.size + free_bytes f.remaining

module _ {a : LinkedListAllocator} (l : Layout) (v : IsValid a) (hl : IsLayout l) where
  small_block : block_size l ≤ 2 ^ 63
  small_block =
      let size = block_size_lem l (omega (arith, hl.size)) in
      omega (arith, size.0, size.3, hl.size, IsAlign-pos hl.align)

  none_hold :
      (regions : List ListNode)
      → All IsRegion regions
      → NoneFits regions (block_size l) l.align
      → NoneHolds regions (block_size l) l.align
  none_hold regions known refused =
      All-map (λ n. IsRegion n × (alloc_from_region n (block_size l) l.align ≡ none))
        (λ n. CannotHold n (block_size l) l.align) regions
        (λ n both. alloc_from_region-CannotHold (block_size l) both.0 hl.align small_block both.1)
        (All-both IsRegion (λ n. alloc_from_region n (block_size l) l.align ≡ none) regions known
          refused)

  found-Whole : (f : Found) → IsFirstFit a.regions (block_size l) l.align f → Whole a l f
  found-Whole f s =
      let regions =
        All-drop IsRegion s.before s.after f.region (subst (All IsRegion) s.split v.regions) in
      let disjoint = Disjoint-drop s.before s.after f.region (subst Disjoint s.split v.disjoint) in
      let back = sym s.remaining in
      record {
        region = regions.0;
        rest = record {
          regions = subst (All IsRegion) back regions.1;
          disjoint = subst Disjoint back disjoint.1;
        };
        apart = subst (ApartFrom (span f.region)) back disjoint.0;
        fits = alloc_from_region-Fits (block_size l) regions.0 hl.align small_block s.fits;
        others = λ t h.
            let parts =
              All-drop (λ n. Apart t (span n)) s.before s.after f.region
                (subst (ApartFrom t) s.split h) in
            (parts.0, subst (ApartFrom t) back parts.1);
        bytes =
            ap free_bytes s.split
            ∙ free_bytes-drop s.before s.after f.region
            ∙ ap (λ (k : List ListNode). f.region.size + free_bytes k) back;
      }

  -- What the block leaves behind it is added as a region.
  block_Carved :
      (f : Found) (a' : LinkedListAllocator)
      → IsFirstFit a.regions (block_size l) l.align f
      → Whole a l f
      → IsValid a'
      → ApartFrom (record { lo = f.alloc_start; hi = f.alloc_start + block_size l }) a'.regions
      → ((t : Span) → ApartFrom t a.regions → ApartFrom t a'.regions)
      → free_bytes a'.regions + block_size l + (f.alloc_start - f.region.addr)
        ≡ free_bytes a.regions
      → Carved a l f.alloc_start a'
  block_Carved f a' s w valid apart stays bytes = record {
    region = f.region;
    before = s.before;
    after = s.after;
    split = s.split;
    first =
        none_hold s.before
          (All-front IsRegion s.before (f.region ∷ s.after)
            (subst (All IsRegion) s.split v.regions))
          s.first;
    aligned = w.fits.aligned;
    start = w.fits.start;
    inside = (w.fits.from, w.fits.to);
    nonnull = omega (arith, w.region.above, w.fits.from);
    node_aligned = w.fits.node_aligned;
    low = omega (arith, w.fits.to, w.region.low);
    keeps = λ t h. (
      λ x lo hi lo' hi'.
          (w.others t h).0 x lo hi (omega (arith, lo', w.fits.from))
            (omega (arith, hi', w.fits.to)),
      stays t h,
    );
    large = (block_size_lem l (omega (arith, hl.size))).2;
    sized = block_size-IsBlockSize l (omega (arith, hl.size));
    valid = valid;
    apart = apart;
    bytes = bytes;
  }

  carve_exact :
      (f : Found)
      → IsFirstFit a.regions (block_size l) l.align f
      → find_region a.regions (block_size l) l.align ≡ some f
      → Whole a l f
      → f.alloc_start + block_size l ≡ f.region.addr + f.region.size
      → Returns (alloc a l) (Outcome a l)
  carve_exact f s run w exact =
      let rest : LinkedListAllocator = record { regions = f.remaining } in
      (
        (f.alloc_start, rest),
        run_exact a l f run w.region.low exact,
        inl (
            block_Carved f rest s w w.rest
              (ApartFrom-part (span f.region)
                (record { lo = f.alloc_start; hi = f.alloc_start + block_size l }) f.remaining
                w.fits.from w.fits.to w.apart)
              (λ t h. (w.others t h).1) (omega (arith, w.bytes, w.fits.from, exact))),
      )

  carve_more :
      (f : Found)
      → IsFirstFit a.regions (block_size l) l.align f
      → find_region a.regions (block_size l) l.align ≡ some f
      → Whole a l f
      → f.alloc_start + block_size l + 16 ≤ f.region.addr + f.region.size
      → Returns (alloc a l) (Outcome a l)
  carve_more f s run w more =
      let start = f.alloc_start in
      let end = start + block_size l in
      let size = f.region.addr + f.region.size - end in
      let block_lem = block_size_lem l (omega (arith, hl.size)) in
      let part : (lo hi : ℕ)
          → f.region.addr ≤ lo
          → hi ≤ f.region.addr + f.region.size
          → ApartFrom (record { lo = lo; hi = hi }) f.remaining =
        λ lo hi from to.
          ApartFrom-part (span f.region) (record { lo = lo; hi = hi }) f.remaining from to
            w.apart in
      let region : IsRegion (record { addr = end; size = size }) = record {
        aligned = omega (arith, w.fits.node_aligned, block_lem.0);
        room = omega (arith, more);
        above = omega (arith, block_lem.1);
        low = omega (arith, w.region.low, more);
      } in
      let (a', run', (ok, regions)) =
        add_free_region_lem end size w.rest region
          (part end (end + size) (omega (arith, w.fits.from)) (omega (arith, more))) in
      (
        (start, a'),
        run_more a a' l f run w.region.low (omega (arith, more)) run',
        inl (
            block_Carved f a' s w ok
              (subst (ApartFrom (record { lo = start; hi = end })) (sym regions)
                (λ x lo hi lo' hi'. omega arith, part start end w.fits.from w.fits.to))
              (λ t h.
                let parts = w.others t h in
                subst (ApartFrom t) (sym regions) (
                  λ x lo hi lo' hi'.
                      parts.0 x lo hi (omega (arith, lo', w.fits.from)) (omega (arith, hi', more)),
                  parts.1,
                ))
              (omega (arith, ap free_bytes regions, w.bytes, w.fits.from, more))),
      )

  carve :
      (f : Found)
      → IsFirstFit a.regions (block_size l) l.align f
      → find_region a.regions (block_size l) l.align ≡ some f
      → Whole a l f
      → Returns (alloc a l) (Outcome a l)
  carve f s run w = elim w.fits.left [
    | inl exact ↦ carve_exact f s run w exact
    | inr more ↦ carve_more f s run w more
  ]

  after_search :
      (o : Option Found)
      → find_region a.regions (block_size l) l.align ≡ o
      → Searched a.regions (block_size l) l.align o
      → Returns (alloc a l) (Outcome a l)
  unfolding alloc
  after_search none run s = (
    (0, a),
    rw (run, alloc) refl,
    inr (
      refl,
      refl,
      (block_size-IsBlockSize l (omega (arith, hl.size)), none_hold a.regions v.regions s),
    ),
  )
  after_search (some f) run s = carve f s run (found-Whole f s)

-- On a valid free list and for a lawful layout alloc does not panic. The size of the block is the
-- least multiple of 8 that is no less than the size asked for and 16; a region can hold it if, at
-- the first address of the region with the alignment, it ends with the region or 16 bytes or more
-- before that. alloc carves the block at that address out of the first region that can hold it,
-- apart from what stays free, and the free bytes lose the block and the padding in front of it;
-- or, if no region can hold it, it returns null and changes nothing.
pub alloc-Outcome :
    {a : LinkedListAllocator} (l : Layout)
    → IsValid a
    → IsLayout l
    → Returns (alloc a l) (Outcome a l)
alloc-Outcome {a} l v hl =
    after_search l v hl (find_region a.regions (block_size l) l.align) refl
      (find_region-Searched a.regions (block_size l) l.align)
