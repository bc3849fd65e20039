-- ===== src/Memory/Paging/Map.antt =====
-- `map_page` (kernel/src/memory/paging.rs) against the lookup of each virtual address.
use aetherion_os.Base.{
  ℕ, ◌<◌, ◌≡◌, ◌≢◌, refl, sym, ap, ◌∙◌, inl, inr, Bool, true, false, Bool-cases, not, ◌||◌,
  if◌then◌else◌, Option, Option-cases, none, some, List, [], ◌∷◌, All, arith, Returns, ◌>>=◌,
}
use aetherion_os.Memory.Address.{
  PhysicalAddress, VirtualAddress, page_size, is_aligned, indices, pml4_index, pdpt_index, pd_index,
  pt_index,
}
use aetherion_os.Memory.PageTable.{
  present, is_present, physical_address, set_address, has, PageTableEntry,
}
use aetherion_os.Memory.PageTable.Bits.{IsFlags, address_field}
use aetherion_os.Memory.PageTable.Entry.{set_address-Holds}
use aetherion_os.Memory.Paging.{
  Memory, Machine, PageMapper, out_of_memory, page_already_mapped, invalid_address, ok, err,
  if_some, flush_tlb, set_entry, map_entry, map_page, get_or_create_table, and_then,
}
use aetherion_os.Memory.Paging.Lookup.{
  follow, walk, IsIndex, path, table_path, path-All, entry_in_range,
}
use aetherion_os.Memory.Paging.Tree.{
  Place, Places, root_place, below, IsTree, SameElsewhere, keeps, none_or_Passes, walk_present,
  walk_absent,
}
use aetherion_os.Memory.Paging.Agree.{
  with_entry, with_entry-SameElsewhere, with_entry_here, page_place, with_entry-IsTree, last_entry,
}
use aetherion_os.Memory.Paging.Create.{get_or_create_table-Created}
use aetherion_os.Memory.Paging.Descent.{Leads, at_root, one_down, after_create, walk-append}
use aetherion_os.Memory.Paging.Mapped.{
  lookup, page_of, number-path, Aligned, MapsPage, Refuses, Mapped, Leads-SameLookups,
  Leads-Refuses,
}

misaligned :
    (v phys : ℕ)
    → (not (is_aligned v page_size) || not (is_aligned phys page_size)) ≡ true
    → ¬ (Aligned v phys)
unfolding is_aligned
misaligned v phys bad (a, b) = ground (arith, a, b, bad)

checked-Aligned :
    (v phys : ℕ)
    → (not (is_aligned v page_size) || not (is_aligned phys page_size)) ≡ false
    → Aligned v phys
unfolding is_aligned
checked-Aligned v phys good = (ground (arith, good), ground (arith, good))

if_some-some : (o : Option PhysicalAddress) → if_some o none (λ u. some u) ≡ o
if_some-some none = refl
if_some-some (some u) = refl

abbrev leaf : PageTableEntry → Option PhysicalAddress
leaf e = if is_present e then some (physical_address e) else none

module _ {root : PhysicalAddress} {places : Places} {w w' : Machine} {pt : PhysicalAddress}
    (v : VirtualAddress) (phys : PhysicalAddress) (flags : ℕ)
    (tree : IsTree root w.memory w.allocator places) (ok_flags : IsFlags flags)
    (aligned : Aligned v phys) (l : Leads root places w (table_path v) pt (page_place v) w') where
  index : pt_index v < 512
  index = omega (arith, indices v)

  table_indices : All IsIndex (table_path v)
  table_indices = let (a, (b, (c, _))) = path-All v in (a, (b, (c, tt)))

  lookup_entry :
      (m : Memory)
      → walk m (table_path v) root ≡ some pt
      → lookup root m v ≡ walk m (pt_index v ∷ []) pt
  lookup_entry m linked =
      walk-append m (table_path v) (pt_index v ∷ []) root
      ∙ ap (λ (o : Option PhysicalAddress). if_some o none (λ u. walk m (pt_index v ∷ []) u)) linked

  abbrev new_entry : PageTableEntry
  new_entry = set_address ((w'.memory pt).entries (pt_index v)) phys flags

  unchanged :
      SameElsewhere l.places' w'.memory
        (with_entry w'.memory pt (pt_index v) new_entry)
        pt
        (pt_index v)
  unchanged = with_entry-SameElsewhere l.places' w'.memory pt (pt_index v) new_entry

  written-IsTree :
      IsTree root (with_entry w'.memory pt (pt_index v) new_entry) w'.allocator l.places'
  written-IsTree = with_entry-IsTree pt v new_entry l.at l.tree

  module _ (absent : is_present ((w'.memory pt).entries (pt_index v)) ≡ false) where
    other_page :
        (u : VirtualAddress)
        → page_of u ≢ page_of v
        → lookup root (with_entry w'.memory pt (pt_index v) new_entry) u ≡ lookup root w'.memory u
    other_page u ne = elim (Option-cases (lookup root w'.memory u)) [
      | inr (x, found) ↦
          keeps pt (pt_index v) l.tree unchanged absent (path u) root root_place x l.tree.root_at
            (path-All u) (omega arith) found
          ∙ sym found
      | inl gone ↦
          elim (none_or_Passes pt (pt_index v) l.tree unchanged absent (path u) root root_place
            l.tree.root_at (path-All u) refl gone) [
              | inl e ↦ e ∙ sym gone
              | inr q ↦ absurd (
                  ne (
                    sym (number-path u)
                    ∙ q.same_number
                    ∙ last_entry l.places' pt v q.place q.rest l.at q.at q.full))
            ]
    ]

    after_write :
        lookup root (with_entry w'.memory pt (pt_index v) new_entry) v
        ≡ (if has flags present then some (address_field phys) else none)
    after_write =
        let holds = set_address-Holds ((w'.memory pt).entries (pt_index v)) phys flags ok_flags in
        lookup_entry (with_entry w'.memory pt (pt_index v) new_entry) (
          keeps pt (pt_index v) l.tree unchanged absent (table_path v) root root_place pt
            l.tree.root_at table_indices (omega arith) l.linked)
        ∙ if_some-some (follow (with_entry w'.memory pt (pt_index v) new_entry) pt (pt_index v))
        ∙ ap leaf (with_entry_here w'.memory pt (pt_index v) new_entry)
        ∙ ap (λ (b : Bool). if b then some (physical_address new_entry) else none)
            (holds.each present)
        ∙ ap (λ (x : ℕ). if has flags present then some x else none) holds.address

    before_write : lookup root w.memory v ≡ none
    before_write =
        sym (Leads-SameLookups tree l v)
        ∙ lookup_entry w'.memory l.linked
        ∙ walk_absent w'.memory pt (pt_index v) [] absent

    maps : MapsPage root v phys flags w (flush_tlb (set_entry w' pt (pt_index v) new_entry) v)
    maps = record {
      places = l.places';
      tree = written-IsTree;
      aligned = aligned;
      before = before_write;
      after = after_write;
      others = λ u ne. other_page u ne ∙ Leads-SameLookups tree l u;
      flushed = ap (λ (x : List VirtualAddress). v ∷ x) l.flushed;
    }

  already :
      is_present ((w'.memory pt).entries (pt_index v)) ≡ true
      → Refuses root v phys w page_already_mapped w'
  already here =
      let found =
        sym (Leads-SameLookups tree l v)
        ∙ lookup_entry w'.memory l.linked
        ∙ walk_present w'.memory pt (pt_index v) [] here in
      Leads-Refuses v phys page_already_mapped tree l
        (physical_address ((w'.memory pt).entries (pt_index v)), found)

  map_entry-Mapped : Returns (map_entry pt v phys flags w') (Mapped root v phys flags w)
  unfolding map_entry
  map_entry-Mapped = elim (Bool-cases (is_present ((w'.memory pt).entries (pt_index v)))) [
    | inl here ↦ (
      (err page_already_mapped, w'),
      rw (entry_in_range (w'.memory pt) index, here) refl,
      already here,
    )
    | inr absent ↦ ((ok tt, _), rw (entry_in_range (w'.memory pt) index, absent) refl, maps absent)
  ]

module _ {places : Places} {w : Machine} (mapper : PageMapper) (v : VirtualAddress)
    (phys : PhysicalAddress) (flags : ℕ)
    (tree : IsTree mapper.pml4_address w.memory w.allocator places) (ok_flags : IsFlags flags) where
  full :
      {w' : Machine} {is : List ℕ} {t : PhysicalAddress} {p : Place}
      → Leads mapper.pml4_address places w is t p w'
      → w'.allocator.allocated_frames ≡ w'.allocator.total_frames
      → Mapped mapper.pml4_address v phys flags w (err out_of_memory, w')
  full l why = Leads-Refuses v phys out_of_memory tree l why

  descend :
      Aligned v phys
      → Returns
          (get_or_create_table mapper.pml4_address (pml4_index v) w >>= λ r. and_then r λ pdpt m.
            get_or_create_table pdpt (pdpt_index v) m >>= λ r. and_then r λ pd m.
              get_or_create_table pd (pd_index v) m >>= λ r.
              and_then r λ pt m. map_entry pt v phys flags m)
          (Mapped mapper.pml4_address v phys flags w)
  descend aligned =
      let (a, (b, (c, _))) = path-All v in
      let l0 = at_root w tree in
      after_create mapper.pml4_address root_place (pml4_index v) w _
        (get_or_create_table-Created mapper.pml4_address root_place (pml4_index v) w l0.tree l0.at
          (omega arith) a)
        (λ pdpt w1 d.
          let l1 = one_down [] (pml4_index v) l0 tt (omega arith) d in
          after_create pdpt (below root_place (pml4_index v)) (pdpt_index v) w1 _
            (get_or_create_table-Created pdpt (below root_place (pml4_index v)) (pdpt_index v) w1
              l1.tree l1.at (omega arith) b)
            (λ pd w2 d.
              let l2 = one_down (pml4_index v ∷ []) (pdpt_index v) l1 (a, tt) (omega arith) d in
              after_create pd (below (below root_place (pml4_index v)) (pdpt_index v)) (pd_index v)
                w2 _
                (get_or_create_table-Created pd
                  (below (below root_place (pml4_index v)) (pdpt_index v)) (pd_index v) w2 l2.tree
                  l2.at (omega arith) c)
                (λ pt w3 d.
                  let l3 =
                    one_down (pml4_index v ∷ pdpt_index v ∷ []) (pd_index v) l2 (a, (b, tt))
                      (omega arith) d in
                  map_entry-Mapped v phys flags tree ok_flags aligned l3)
                (full l2))
            (full l1))
        (full l0)

  -- On a tree of tables and for flags without address bits map_page does not panic and keeps a
  -- tree of tables. It enters a page that was not mapped and changes no lookup of another page; or
  -- it changes no lookup, and reports an address that is not aligned, a page that is mapped
  -- already, or that no frame is free.
  pub map_page-Mapped :
      Returns (map_page mapper v phys flags w) (Mapped mapper.pml4_address v phys flags w)
  unfolding map_page
  map_page-Mapped =
      elim (Bool-cases (not (is_aligned v page_size) || not (is_aligned phys page_size))) [
        | inl bad ↦ (
          (err invalid_address, w),
          rw bad refl,
          Leads-Refuses v phys invalid_address tree (at_root w tree) (misaligned v phys bad),
        )
        | inr good ↦ rw good (descend (checked-Aligned v phys good))
      ]
