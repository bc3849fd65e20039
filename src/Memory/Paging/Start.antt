-- ===== src/Memory/Paging/Start.antt =====
-- The empty address space that `init_pml4_table` (kernel/src/memory/mod.rs) makes.
use aetherion_os.Base.{
  ℕ, ◌+◌, ◌*◌, ◌^◌, ◌≤◌, ◌<◌, ◌≡◌, refl, sym, ap, ◌∙◌, true, false, if◌then◌else◌, none, some, [],
  ◌∷◌, arith, ℕ_discrete, ne→==, eq→==, done, ◌==◌,
}
use aetherion_os.Memory.Address.{
  PhysicalAddress, VirtualAddress, indices, pml4_index, pdpt_index, pd_index, pt_index,
}
use aetherion_os.Memory.Bitmap.View.{bit}
use aetherion_os.Memory.FrameAllocator.{FrameAllocator}
use aetherion_os.Memory.FrameAllocator.Valid.{Starts}
use aetherion_os.Memory.FrameAllocator.Valid
use aetherion_os.Memory.PageTable.{is_present}
use aetherion_os.Memory.PageTable.Entry.{zero_table_lem, is_present-zero}
use aetherion_os.Memory.Paging.{Memory, PageMapper, translate, init_pml4_table}
use aetherion_os.Memory.Paging.Lookup.{translate_lem}
use aetherion_os.Memory.Paging.Tree.{Place, Places, root_place, IsTree, walk_absent}
use aetherion_os.Memory.Paging.Grow.{some_injective, true-false}
use aetherion_os.Memory.Paging.Translate.{in_page}

no_place : {p : Place} → none ≡ some p → ⊥
no_place e = cc

abbrev pub only_root : PhysicalAddress → Places
only_root root a = if a == root then some root_place else none

only_root-cases :
    (root t : PhysicalAddress) (p : Place)
    → only_root root t ≡ some p
    → (t ≡ root) × (root_place ≡ p)
only_root-cases root t p h = elim (ℕ_discrete t root) [
  | yes e ↦
      let here : only_root root t ≡ some root_place = rw (eq→== t root e) refl in
      (e, some_injective (sym here ∙ h))
  | no ne ↦
      let gone : only_root root t ≡ none = rw (ne→== t root ne) refl in
      absurd (no_place (sym gone ∙ h))
]

-- With a valid frame allocator whose region ends at or below 2^52, init_pml4_table at an address
-- that is no free frame makes a tree of one table, in which no address translates.
pub init_pml4_table-IsTree :
    (mapper : PageMapper) (m : Memory) (fa : FrameAllocator)
    → Valid.IsValid fa
    → fa.start_address + fa.total_frames * 4096 ≤ 2 ^ 52
    → ((i : ℕ) → Starts fa i mapper.pml4_address → bit fa.bitmap i ≡ true)
    → IsTree mapper.pml4_address
        (init_pml4_table m mapper.pml4_address)
        fa
        (only_root mapper.pml4_address)
      × ((v : VirtualAddress)
          → translate mapper (init_pml4_table m mapper.pml4_address) v ≡ done none)
unfolding init_pml4_table
init_pml4_table-IsTree mapper m fa valid low used =
    let root = mapper.pml4_address in
    let gone : (i : ℕ) → i < 512 → is_present ((init_pml4_table m root root).entries i) ≡ false =
      λ i lt.
        ap is_present (rw (eq→== root root refl) (zero_table_lem (m root) i lt))
        ∙ is_present-zero in
    (
      record {
        allocator = valid;
        low = low;
        root_at = rw (eq→== root root refl) refl;
        shallow =
            λ t p h. omega (arith, ap (λ (x : Place). x.depth) (only_root-cases root t p h).1);
        child = λ t p i h depth lt here.
            let (e, _) = only_root-cases root t p h in
            absurd (
              true-false (
                sym here
                ∙ ap (λ (x : ℕ). is_present ((init_pml4_table m root x).entries i)) e
                ∙ gone i lt));
        taken = λ t p i h st.
            let (e, _) = only_root-cases root t p h in
            used i (record { known = st.known; exact = sym e ∙ st.exact });
      },
      λ v.
          translate_lem mapper (init_pml4_table m root) v
          ∙ ap (in_page v) (
              walk_absent (init_pml4_table m root) root (pml4_index v)
                (pdpt_index v ∷ pd_index v ∷ pt_index v ∷ [])
                (gone (pml4_index v) (omega (arith, indices v)))),
    )
