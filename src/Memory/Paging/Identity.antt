-- ===== src/Memory/Paging/Identity.antt =====
-- `identity_map_range` (kernel/src/memory/paging.rs).
use aetherion_os.Base.{
  ℕ, zero, suc, ◌+◌, ◌-◌, ◌*◌, ◌/◌, ◌%◌, ◌^◌, ◌≤◌, ◌<◌, ◌≡◌, ◌≢◌, refl, ap, ◌∙◌, if◌then◌else◌,
  none, some, arith, ne→==, eq→==, lt→ltb, done, Returns, dec_lt,
}
use aetherion_os.Base.Word.{add_usize, usize_mod}
use aetherion_os.Memory.Address.{
  VirtualAddress, page_size, align_down, align_up, indices, align_down_page, page-IsAlign,
}
use aetherion_os.Base.Align.{align_up_lem}
use aetherion_os.Memory.PageTable.{present, has}
use aetherion_os.Memory.PageTable.Bits.{IsFlags}
use aetherion_os.Memory.Paging.{
  Memory, Machine, PageMapper, MapperError, Result, ok, err, translate, map_page,
  identity_map_pages, identity_map_range,
}
use aetherion_os.Memory.Paging.Tree.{Places, IsTree}
use aetherion_os.Memory.Paging.Mapped.{page_of, Mapped}
use aetherion_os.Memory.Paging.Map.{map_page-Mapped}
use aetherion_os.Memory.Paging.Translate.{from_Mapped, in_frame}

-- Addresses with 48 bits outside of the range translate as before.
abbrev pub Outside : PageMapper → Memory → Memory → ℕ → ℕ → Type 0
Outside mapper before after from to =
    (u : VirtualAddress)
    → u < 2 ^ 48
    → ¬ ((from ≤ u) × (u < to))
    → translate mapper after u ≡ translate mapper before u

-- Addresses of the range translate to themselves, if the flags have PRESENT.
abbrev pub Identity : PageMapper → Memory → ℕ → ℕ → ℕ → Type 0
Identity mapper after from to flags =
    (u : VirtualAddress)
    → from ≤ u
    → u < to
    → translate mapper after u ≡ done (if has flags present then some u else none)

pub record Ranged (mapper : PageMapper) (w : Machine) (from to flags : ℕ)
    (r : Result (Unit {0}) × Machine) : Type 0 where
  pub places : Places
  pub tree : IsTree mapper.pml4_address r.1.memory r.1.allocator places
  pub outside : Outside mapper w.memory r.1.memory from to
  pub inside : r.0 ≡ ok tt → Identity mapper r.1.memory from to flags

err_ok : {e : MapperError} {u : Unit {0}} → err e ≡ ok u → ⊥
err_ok e = cc

-- One page is the range of its own addresses.
in_frame_self :
    (flags page u : ℕ)
    → page % 4096 ≡ 0
    → page ≤ u
    → u < page + 4096
    → page < 2 ^ 48
    → in_frame page flags u ≡ (if has flags present then some u else none)
in_frame_self flags page u aligned lo hi low =
    ap (λ (x : ℕ). if has flags present then some x else none)
      (omega (arith, indices u, aligned, lo, hi, low))

one_page :
    (mapper : PageMapper) (w : Machine) (page flags : ℕ) (r : Result (Unit {0}) × Machine)
    → page % 4096 ≡ 0
    → page + 4096 ≤ 2 ^ 48
    → Mapped mapper.pml4_address page page flags w r
    → Ranged mapper w page (page + 4096) flags r
one_page mapper w page flags (ok _, w') aligned low p =
    let (t, _, _) = from_Mapped mapper w page page flags (ok tt, w') p in
    record {
      places = p.places;
      tree = p.tree;
      outside = λ u small out.
          let other : page_of u ≢ page_of page = λ e.
            out (omega (arith, e, aligned, low, small), omega (arith, e, aligned, low, small)) in
          t u ∙ rw (ne→== (page_of u) (page_of page) other) refl;
      inside = λ _ u lo hi.
          let same : page_of u ≡ page_of page = omega (arith, lo, hi, aligned, low) in
          t u
          ∙ rw (eq→== (page_of u) (page_of page) same)
              (ap done (in_frame_self flags page u aligned lo hi (omega (arith, low))));
    }
one_page mapper w page flags (err e, w') aligned low p = record {
  places = p.places;
  tree = p.tree;
  outside = λ u small out. from_Mapped mapper w page page flags (err e, w') p u;
  inside = λ no. absurd (err_ok no);
}

-- A page and the range behind it.
join :
    (mapper : PageMapper) (w w1 : Machine) (page to flags : ℕ) (r : Result (Unit {0}) × Machine)
    → page + 4096 ≤ to
    → to ≤ 2 ^ 48
    → Ranged mapper w page (page + 4096) flags (ok tt, w1)
    → Ranged mapper w1 (page + 4096) to flags r
    → Ranged mapper w page to flags r
join mapper w w1 page to flags r h low one rest = record {
  places = rest.places;
  tree = rest.tree;
  outside = λ u small out.
      rest.outside u small (λ i. out (omega (arith, i.0), i.1))
      ∙ one.outside u small (λ i. out (i.0, omega (arith, i.1, h)));
  inside = λ good u lo hi. elim (dec_lt u (page + 4096)) [
    | yes first ↦
        rest.outside u (omega (arith, hi, low)) (λ i. absurd (omega (arith, i.0, first)))
        ∙ one.inside refl u lo first
    | no later ↦ rest.inside good u (omega (arith, later)) hi
  ];
}

-- A range that ends early.
stopped :
    (mapper : PageMapper) (w w1 : Machine) (page to flags : ℕ) (e : MapperError)
    → page + 4096 ≤ to
    → Ranged mapper w page (page + 4096) flags (err e, w1)
    → Ranged mapper w page to flags (err e, w1)
stopped mapper w w1 page to flags e h one = record {
  places = one.places;
  tree = one.tree;
  outside = λ u small out. one.outside u small (λ i. out (i.0, omega (arith, i.1, h)));
  inside = λ no. absurd (err_ok no);
}

-- A round of the loop: a page, and then the rest or a stop.
round :
    (left : ℕ) (mapper : PageMapper) (page to flags : ℕ) (w : Machine)
    (r : Result (Unit {0}) × Machine)
    → page % 4096 ≡ 0
    → page + suc left * 4096 ≡ to
    → to ≤ 2 ^ 48
    → map_page mapper page page flags w ≡ done r
    → Mapped mapper.pml4_address page page flags w r
    → ((places : Places) (w1 : Machine)
        → IsTree mapper.pml4_address w1.memory w1.allocator places
        → Returns
            (identity_map_pages left mapper (page + 4096) to flags w1)
            (Ranged mapper w1 (page + 4096) to flags))
    → Returns (identity_map_pages (suc left) mapper page to flags w) (Ranged mapper w page to flags)
unfolding identity_map_pages
round left mapper page to flags w (ok _, w1) aligned exact low run p ih =
    let one = one_page mapper w page flags (ok tt, w1) aligned (omega (arith, exact, low)) p in
    let (r, run', rest) = ih one.places w1 one.tree in
    let e : add_usize page page_size ≡ page + 4096 = omega (arith, exact, low) in
    (
      r,
      rw (lt→ltb page to (omega (arith, exact)), run, e) run',
      join mapper w w1 page to flags r (omega (arith, exact)) low one rest,
    )
round left mapper page to flags w (err e, w1) aligned exact low run p ih =
    let one = one_page mapper w page flags (err e, w1) aligned (omega (arith, exact, low)) p in
    (
      (err e, w1),
      rw (lt→ltb page to (omega (arith, exact)), run) refl,
      stopped mapper w w1 page to flags e (omega (arith, exact)) one,
    )

pages-Ranged :
    {places : Places} (left : ℕ) (mapper : PageMapper) (page to flags : ℕ) (w : Machine)
    → IsTree mapper.pml4_address w.memory w.allocator places
    → IsFlags flags
    → page % 4096 ≡ 0
    → page + left * 4096 ≡ to
    → to ≤ 2 ^ 48
    → Returns (identity_map_pages left mapper page to flags w) (Ranged mapper w page to flags)
unfolding identity_map_pages
pages-Ranged {places} zero mapper page to flags w tree ok_flags aligned exact low = (
  (ok tt, w),
  refl,
  record {
    places = places;
    tree = tree;
    outside = λ u small out. refl;
    inside = λ _ u lo hi. absurd (omega (arith, lo, hi, exact));
  },
)
pages-Ranged (suc left) mapper page to flags w tree ok_flags aligned exact low =
    let (r, run, p) = map_page-Mapped {w = w} mapper page page flags tree ok_flags in
    round left mapper page to flags w r aligned exact low run p (λ pl w1 tree1.
      pages-Ranged left mapper (page + 4096) to flags w1 tree1 ok_flags (omega (arith, aligned))
        (omega (arith, exact)) low)

align_up_page :
    (x : ℕ)
    → x + 4096 ≤ usize_mod
    → (x ≤ align_up x 4096) × (align_up x 4096 < x + 4096) × (align_up x 4096 % 4096 ≡ 0)
unfolding align_up
align_up_page x h = align_up_lem x page-IsAlign h

-- On a tree of tables, for flags without address bits and a range that ends a page below 2^48,
-- identity_map_range returns and keeps a tree of tables. If it succeeds, every address of the
-- pages that the range touches translates to itself, if the flags have PRESENT; and whether it
-- succeeds or stops at a page, every address with 48 bits outside of those pages translates as
-- before.
pub identity_map_range-Ranged :
    {places : Places} (mapper : PageMapper) (start size flags : ℕ) (w : Machine)
    → IsTree mapper.pml4_address w.memory w.allocator places
    → IsFlags flags
    → start + size + 4096 ≤ 2 ^ 48
    → Returns
        (identity_map_range mapper start size flags w)
        (Ranged mapper w (align_down start 4096) (align_up (start + size) 4096) flags)
unfolding identity_map_range
identity_map_range-Ranged mapper start size flags w tree ok_flags low =
    let sum : add_usize start size ≡ start + size = omega (arith, low) in
    let down = align_down_page start (omega (arith, low)) in
    let (lo, hi, multiple) = align_up_page (start + size) (omega (arith, low)) in
    let from = align_down start 4096 in
    let to = align_up (start + size) 4096 in
    let aligned : from % 4096 ≡ 0 = omega (arith, down) in
    let (r, run, ranged) =
      pages-Ranged ((to - from) / 4096) mapper from to flags w tree ok_flags aligned
        (omega (arith, down, lo, multiple, aligned)) (omega (arith, hi, low)) in
    (
      r,
      ap
            (λ (x : ℕ).
              identity_map_pages ((align_up x 4096 - from) / 4096) mapper from (align_up x 4096)
                flags w)
            sum
          ∙ run,
      ranged,
    )
