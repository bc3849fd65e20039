-- ===== src/Memory/Paging/Translate.antt =====
-- `translate` (kernel/src/memory/paging.rs) before and after `map_page` and `unmap_page`.
use aetherion_os.Base.{
  ℕ, ◌+◌, ◌≡◌, ◌≢◌, refl, sym, ap, ◌∙◌, inl, inr, Bool, true, false, if◌then◌else◌, Option, none,
  some, List, arith, ℕ_discrete, ne→==, eq→==, done, done-injective, Returns, Run, ◌==◌,
}
use mathlib.Core.Path.{subst}
use aetherion_os.Base.Word.{add_usize}
use aetherion_os.Memory.Address.{
  PhysicalAddress, VirtualAddress, indices, pml4_index, pdpt_index, pd_index, pt_index, page_offset,
}
use aetherion_os.Memory.PageTable.{present, has}
use aetherion_os.Memory.PageTable.Bits.{IsFlags, address_field}
use aetherion_os.Memory.Paging.{
  Memory, Machine, PageMapper, Result, ok, err, if_some, translate, map_page, unmap_page,
}
use aetherion_os.Memory.Paging.Lookup.{walk, path, translate_lem}
use aetherion_os.Memory.Paging.Tree.{Places, IsTree, none-some}
use aetherion_os.Memory.Paging.Agree.{found_here}
use aetherion_os.Memory.Paging.Mapped.{lookup, page_of, Aligned, MapsPage, Mapped}
use aetherion_os.Memory.Paging.Map.{map_page-Mapped}
use aetherion_os.Memory.Paging.Unmap.{Unmapped, unmap_page-Unmapped}

-- What `translate` makes of the entry found.
abbrev pub in_page : VirtualAddress → Option PhysicalAddress → Run (Option PhysicalAddress)
in_page u o = if_some o (done none) λ frame. done (some (add_usize frame (page_offset u)))

-- Addresses of one page have one way through the tables.
same_page : (u v : VirtualAddress) → page_of u ≡ page_of v → path u ≡ path v
same_page u v e =
    let i = indices u in
    let j = indices v in
    let a : pml4_index u ≡ pml4_index v = omega (arith, i.0, j.0, e) in
    let b : pdpt_index u ≡ pdpt_index v = omega (arith, i.1, j.1, e) in
    let c : pd_index u ≡ pd_index v = omega (arith, i.2, j.2, e) in
    let d : pt_index u ≡ pt_index v = omega (arith, i.3, j.3, e) in rw (a, b, c, d) refl

-- The translations are those of `before`, but for one page, which has those of `page`.
abbrev pub ChangesPage :
    PageMapper
    → Memory
    → Memory
    → VirtualAddress
    → (VirtualAddress → Option PhysicalAddress)
    → Type 0
ChangesPage mapper before after v page =
    (u : VirtualAddress)
    → translate mapper after u
      ≡ (if page_of u == page_of v then done (page u) else translate mapper before u)

abbrev pub SameTranslations : PageMapper → Memory → Memory → Type 0
SameTranslations mapper before after =
    (u : VirtualAddress) → translate mapper after u ≡ translate mapper before u

changes_page :
    (mapper : PageMapper) (m m' : Memory) (v : VirtualAddress)
    (page : VirtualAddress → Option PhysicalAddress)
    → ((u : VirtualAddress)
        → page_of u ≡ page_of v
        → in_page u (lookup mapper.pml4_address m' v) ≡ done (page u))
    → ((u : VirtualAddress)
        → page_of u ≢ page_of v
        → lookup mapper.pml4_address m' u ≡ lookup mapper.pml4_address m u)
    → ChangesPage mapper m m' v page
changes_page mapper m m' v page here others u = elim (ℕ_discrete (page_of u) (page_of v)) [
  | yes e ↦
      translate_lem mapper m' u
      ∙ ap (λ (is : List ℕ). in_page u (walk m' is mapper.pml4_address)) (same_page u v e)
      ∙ here u e
      ∙ rw (eq→== (page_of u) (page_of v) e) refl
  | no ne ↦
      translate_lem mapper m' u
      ∙ ap (in_page u) (others u ne)
      ∙ sym (translate_lem mapper m u)
      ∙ rw (ne→== (page_of u) (page_of v) ne) refl
]

-- The address that a page of `phys` gives, if its flags make it present.
abbrev pub in_frame : PhysicalAddress → ℕ → VirtualAddress → Option PhysicalAddress
in_frame phys flags u =
    if has flags present then some (address_field phys + page_offset u) else none

in_page-frame :
    (b : Bool) (phys : PhysicalAddress) (u : VirtualAddress)
    → in_page u (if b then some (address_field phys) else none)
      ≡ done (if b then some (address_field phys + page_offset u) else none)
in_page-frame true phys u = ap (λ (x : ℕ). done (some x)) (omega (arith, indices u))
in_page-frame false phys u = refl

abbrev pub MapTranslates :
    PageMapper
    → Machine
    → VirtualAddress
    → PhysicalAddress
    → ℕ
    → Result (Unit {0}) × Machine
    → Type 0
MapTranslates mapper w v phys flags (ok _, w') =
    ChangesPage mapper w.memory w'.memory v (in_frame phys flags)
    × (translate mapper w.memory v ≡ done none)
    × Aligned v phys
MapTranslates mapper w v phys flags (err e, w') = SameTranslations mapper w.memory w'.memory

pub from_Mapped :
    (mapper : PageMapper) (w : Machine) (v : VirtualAddress) (phys : PhysicalAddress) (flags : ℕ)
    (r : Result (Unit {0}) × Machine)
    → Mapped mapper.pml4_address v phys flags w r
    → MapTranslates mapper w v phys flags r
from_Mapped mapper w v phys flags (ok _, w') p = (
  changes_page mapper w.memory w'.memory v (in_frame phys flags)
      (λ u e. ap (in_page u) p.after ∙ in_page-frame (has flags present) phys u) p.others,
  translate_lem mapper w.memory v ∙ ap (in_page v) p.before,
  p.aligned,
)
from_Mapped mapper w v phys flags (err e, w') p = λ u.
    translate_lem mapper w'.memory u
    ∙ ap (in_page u) (p.same u)
    ∙ sym (translate_lem mapper w.memory u)

-- On a tree of tables and for flags without address bits map_page does not panic. If it succeeds,
-- both addresses were aligned and the page was not mapped; then every address of the page
-- translates into the frame that the low 52 bits of the frame address give, if the flags have
-- PRESENT, and every other address as before. If it fails, every address translates as before.
pub map_page-MapTranslates :
    {places : Places} (w : Machine) (mapper : PageMapper) (v : VirtualAddress)
    (phys : PhysicalAddress) (flags : ℕ)
    → IsTree mapper.pml4_address w.memory w.allocator places
    → IsFlags flags
    → Returns (map_page mapper v phys flags w) (MapTranslates mapper w v phys flags)
map_page-MapTranslates w mapper v phys flags tree ok_flags =
    let (r, run, p) = map_page-Mapped mapper v phys flags tree ok_flags in
    (r, run, from_Mapped mapper w v phys flags r p)

-- What is known after a page was mapped as present and unmapped.
pub record Undone (mapper : PageMapper) (phys : PhysicalAddress) (w : Machine)
    (r : Result PhysicalAddress × Machine) : Type 0 where
  pub frame : r.0 ≡ ok (address_field phys)
  pub same : SameTranslations mapper w.memory r.1.memory
  pub places : Places
  pub tree : IsTree mapper.pml4_address r.1.memory r.1.allocator places

unmap_page-Undone :
    (places : Places) (mapper : PageMapper) (w w1 : Machine) (v : VirtualAddress)
    (phys : PhysicalAddress) (flags : ℕ) (r : Result PhysicalAddress × Machine)
    → has flags present ≡ true
    → MapsPage mapper.pml4_address v phys flags w w1
    → Unmapped mapper.pml4_address places v w1 r
    → Undone mapper phys w r
unmap_page-Undone places mapper w w1 v phys flags (ok frame, w2) on p q =
    let mapped : lookup mapper.pml4_address w1.memory v ≡ some (address_field phys) =
      p.after ∙ rw on refl in
    record {
      frame = ap ok (found_here (sym q.before ∙ mapped));
      same = λ u.
          translate_lem mapper w2.memory u
          ∙ ap (in_page u) (elim (ℕ_discrete (page_of u) (page_of v)) [
            | yes e ↦
                ap (λ (is : List ℕ). walk w2.memory is mapper.pml4_address) (same_page u v e)
                ∙ q.after
                ∙ sym p.before
                ∙ ap (λ (is : List ℕ). walk w.memory is mapper.pml4_address) (sym (same_page u v e))
            | no ne ↦ q.others u ne ∙ p.others u ne
          ])
          ∙ sym (translate_lem mapper w.memory u);
      places = places;
      tree = q.tree;
    }
unmap_page-Undone places mapper w w1 v phys flags (err e, w2) on p (_, _, inl bad) =
    absurd (bad p.aligned.0)
unmap_page-Undone places mapper w w1 v phys flags (err e, w2) on p (_, _, inr gone) =
    let mapped : lookup mapper.pml4_address w1.memory v ≡ some (address_field phys) =
      p.after ∙ rw on refl in
    absurd (none-some (sym gone ∙ mapped))

-- On a tree of tables and for flags that have PRESENT and no address bits, unmap_page of a page
-- that map_page has just mapped does not panic and returns its frame; it leaves a tree of tables,
-- and every address translates as it did before both calls.
pub unmap_page-map_page :
    {places : Places} (w w1 : Machine) (mapper : PageMapper) (v : VirtualAddress)
    (phys : PhysicalAddress) (flags : ℕ)
    → IsTree mapper.pml4_address w.memory w.allocator places
    → IsFlags flags
    → has flags present ≡ true
    → map_page mapper v phys flags w ≡ done (ok tt, w1)
    → Returns (unmap_page mapper v w1) (Undone mapper phys w)
unmap_page-map_page w w1 mapper v phys flags tree ok_flags on run =
    let (r, run', p') = map_page-Mapped mapper v phys flags tree ok_flags in
    let p =
      subst (Mapped mapper.pml4_address v phys flags w) (done-injective (sym run' ∙ run)) p' in
    let (r2, run2, q) = unmap_page-Unmapped mapper v w1 p.tree in
    (r2, run2, unmap_page-Undone p.places mapper w w1 v phys flags r2 on p q)
