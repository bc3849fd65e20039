-- ===== src/Memory/Paging/Unmap.antt =====
-- `unmap_page` (kernel/src/memory/paging.rs) against the lookup of each virtual address.
use aetherion_os.Base.{
  ◌%◌, ◌≡◌, ◌≢◌, refl, sym, ap, ◌∙◌, ◌⊎◌, inl, inr, false, Option, none, some, [], ◌∷◌, All, arith,
  ℕ_discrete, ne→==, eq→==, done, Returns, Run,
}
use aetherion_os.Memory.Address.{
  PhysicalAddress, VirtualAddress, is_aligned, pdpt_index, pd_index, pt_index,
}
use aetherion_os.Memory.PageTable.{is_present}
use aetherion_os.Memory.PageTable.Entry.{is_present-zero}
use aetherion_os.Memory.Paging.{
  Machine, PageMapper, invalid_address, Result, ok, err, if_some, flush_tlb, set_entry, unmap_page,
}
use aetherion_os.Memory.Paging.Lookup.{
  follow, walk, IsIndex, path, table_path, path-All, down, next_table_lem,
}
use aetherion_os.Memory.Paging.Tree.{Places, root_place, IsTree, SameElsewhere, walk_absent}
use aetherion_os.Memory.Paging.Agree.{
  page_place, with_entry-SameElsewhere, with_entry_here, with_entry-IsTree, last_entry,
  same_or_Meets, walk-places, short_walk,
}
use aetherion_os.Memory.Paging.Descent.{walk-append}
use aetherion_os.Memory.Paging.Mapped.{lookup, page_of, number-path}

-- The page is unmapped, and no other lookup changes.
pub record UnmapsPage (root : PhysicalAddress) (places : Places) (v : VirtualAddress)
    (frame : PhysicalAddress) (w w' : Machine) : Type 0 where
  pub tree : IsTree root w'.memory w'.allocator places
  pub aligned : v % 4096 ≡ 0
  pub before : lookup root w.memory v ≡ some frame
  pub after : lookup root w'.memory v ≡ none
  pub others :
      (u : VirtualAddress)
      → page_of u ≢ page_of v
      → lookup root w'.memory u ≡ lookup root w.memory u
  pub flushed : w'.flushed ≡ v ∷ w.flushed
  pub allocator : w'.allocator ≡ w.allocator

abbrev pub Unmapped :
    PhysicalAddress → Places → VirtualAddress → Machine → Result PhysicalAddress × Machine → Type 0
Unmapped root places v w (ok frame, w') = UnmapsPage root places v frame w w'
Unmapped root places v w (err e, w') =
    (e ≡ invalid_address) × (w' ≡ w) × ((¬ (v % 4096 ≡ 0)) ⊎ (lookup root w.memory v ≡ none))

-- The source's tests are the walk to the page table, and one more.
unmap_lem :
    (mapper : PageMapper) (v : VirtualAddress) (w : Machine)
    → v % 4096 ≡ 0
    → unmap_page mapper v w
      ≡ if_some
          (walk w.memory (table_path v) mapper.pml4_address)
          (done (err invalid_address, w))
          λ pt.
            if_some
              (follow w.memory pt (pt_index v))
              (done (err invalid_address, w))
              λ frame. done (ok frame, flush_tlb (set_entry w pt (pt_index v) 0) v)
unfolding unmap_page is_aligned
unmap_lem mapper v w aligned =
    let refuse : Run (Result PhysicalAddress × Machine) = done (err invalid_address, w) in
    let clear : PhysicalAddress → Run (Result PhysicalAddress × Machine) = λ pt.
      if_some (follow w.memory pt (pt_index v)) refuse
        λ frame. done (ok frame, flush_tlb (set_entry w pt (pt_index v) 0) v) in
    let (a, (b, (c, (d, _)))) = path-All v in
    rw (eq→== (v % 4096) 0 aligned) (
      down w.memory refuse clear mapper.pml4_address (pdpt_index v ∷ pd_index v ∷ []) _ a λ pdpt.
        down w.memory refuse clear pdpt (pd_index v ∷ []) _ b
          λ pd. down w.memory refuse clear pd [] _ c λ pt. rw (next_table_lem w.memory pt d) refl)

module _ {places : Places} (mapper : PageMapper) (v : VirtualAddress) (w : Machine)
    (pt : PhysicalAddress) (tree : IsTree mapper.pml4_address w.memory w.allocator places)
    (aligned : v % 4096 ≡ 0)
    (linked : walk w.memory (table_path v) mapper.pml4_address ≡ some pt) where
  abbrev root : PhysicalAddress
  root = mapper.pml4_address

  abbrev cleared : Machine
  cleared = flush_tlb (set_entry w pt (pt_index v) 0) v

  table_indices : All IsIndex (table_path v)
  table_indices = let (a, (b, (c, _))) = path-All v in (a, (b, (c, tt)))

  at : places pt ≡ some (page_place v)
  at =
      walk-places (table_path v) root root_place pt tree tree.root_at table_indices (omega arith)
        linked

  unchanged : SameElsewhere places w.memory cleared.memory pt (pt_index v)
  unchanged = with_entry-SameElsewhere places w.memory pt (pt_index v) 0

  lookup_entry : lookup root w.memory v ≡ walk w.memory (pt_index v ∷ []) pt
  lookup_entry =
      walk-append w.memory (table_path v) (pt_index v ∷ []) root
      ∙ ap (λ (o : Option PhysicalAddress). if_some o none (λ u. walk w.memory (pt_index v ∷ []) u))
          linked

  cleared_entry : is_present ((cleared.memory pt).entries (pt_index v)) ≡ false
  cleared_entry = ap is_present (with_entry_here w.memory pt (pt_index v) 0) ∙ is_present-zero

  written-IsTree : IsTree root cleared.memory cleared.allocator places
  written-IsTree = with_entry-IsTree pt v 0 at tree

  others :
      (u : VirtualAddress)
      → page_of u ≢ page_of v
      → lookup root cleared.memory u ≡ lookup root w.memory u
  others u ne =
      elim (same_or_Meets pt (pt_index v) tree unchanged (path u) root root_place tree.root_at
        (path-All u) refl) [
          | inl e ↦ e
          | inr q ↦ absurd (
              ne (
                sym (number-path u)
                ∙ q.same_number
                ∙ last_entry places pt v q.place q.rest at q.at q.full))
        ]

  linked_still : walk cleared.memory (table_path v) root ≡ some pt
  linked_still =
      short_walk pt v at tree unchanged (table_path v) root root_place tree.root_at table_indices
        (omega arith)
      ∙ linked

  unmaps :
      (frame : PhysicalAddress)
      → follow w.memory pt (pt_index v) ≡ some frame
      → UnmapsPage root places v frame w cleared
  unmaps frame found = record {
    tree = written-IsTree;
    aligned = aligned;
    before = lookup_entry ∙ ap (λ (o : Option PhysicalAddress). if_some o none (λ u. some u)) found;
    after =
        walk-append cleared.memory (table_path v) (pt_index v ∷ []) root
        ∙ ap
            (λ (o : Option PhysicalAddress).
              if_some o none (λ u. walk cleared.memory (pt_index v ∷ []) u))
            linked_still
        ∙ walk_absent cleared.memory pt (pt_index v) [] cleared_entry;
    others = others;
    flushed = refl;
    allocator = refl;
  }

  last_test :
      (o : Option PhysicalAddress)
      → follow w.memory pt (pt_index v) ≡ o
      → Returns (unmap_page mapper v w) (Unmapped root places v w)
  last_test none gone = (
    (err invalid_address, w),
    unmap_lem mapper v w aligned ∙ rw (linked, gone) refl,
    (
      refl,
      refl,
      inr (lookup_entry ∙ ap (λ (o : Option PhysicalAddress). if_some o none (λ u. some u)) gone),
    ),
  )
  last_test (some frame) found = (
    (ok frame, cleared),
    unmap_lem mapper v w aligned ∙ rw (linked, found) refl,
    unmaps frame found,
  )

first_tests :
    {places : Places} (mapper : PageMapper) (v : VirtualAddress) (w : Machine)
    → IsTree mapper.pml4_address w.memory w.allocator places
    → v % 4096 ≡ 0
    → (o : Option PhysicalAddress) → walk w.memory (table_path v) mapper.pml4_address ≡ o
    → Returns (unmap_page mapper v w) (Unmapped mapper.pml4_address places v w)
first_tests mapper v w tree aligned none gone = (
  (err invalid_address, w),
  unmap_lem mapper v w aligned ∙ rw gone refl,
  (
    refl,
    refl,
    inr (
        walk-append w.memory (table_path v) (pt_index v ∷ []) mapper.pml4_address
        ∙ ap
            (λ (o : Option PhysicalAddress).
              if_some o none (λ u. walk w.memory (pt_index v ∷ []) u))
            gone),
  ),
)
first_tests mapper v w tree aligned (some pt) linked =
    last_test mapper v w pt tree aligned linked (follow w.memory pt (pt_index v)) refl

unmap_misaligned :
    (mapper : PageMapper) (v : VirtualAddress) (w : Machine)
    → ¬ (v % 4096 ≡ 0)
    → unmap_page mapper v w ≡ done (err invalid_address, w)
unfolding unmap_page is_aligned
unmap_misaligned mapper v w bad = rw (ne→== (v % 4096) 0 bad) refl

-- On a tree of tables unmap_page does not panic. It unmaps the page, returns its frame and changes
-- no lookup of another page; or, where the address is not aligned or the page is not mapped, it
-- reports an invalid address and changes nothing.
pub unmap_page-Unmapped :
    {places : Places} (mapper : PageMapper) (v : VirtualAddress) (w : Machine)
    → IsTree mapper.pml4_address w.memory w.allocator places
    → Returns (unmap_page mapper v w) (Unmapped mapper.pml4_address places v w)
unmap_page-Unmapped mapper v w tree = elim (ℕ_discrete (v % 4096) 0) [
  | yes aligned ↦
      first_tests mapper v w tree aligned (walk w.memory (table_path v) mapper.pml4_address) refl
  | no bad ↦ ((err invalid_address, w), unmap_misaligned mapper v w bad, (refl, refl, inl bad))
]
