-- ===== src/Memory/Paging/Mapped.antt =====
-- What `map_page` (kernel/src/memory/paging.rs) promises about the lookups of all virtual addresses.
use aetherion_os.Base.{
  ℕ, ◌/◌, ◌%◌, ◌^◌, ◌≡◌, ◌≢◌, refl, sym, ◌∙◌, inl, inr, if◌then◌else◌, Option, Option-cases, none,
  some, List, ◌∷◌, arith,
}
use aetherion_os.Memory.Address.{PhysicalAddress, VirtualAddress, indices}
use aetherion_os.Memory.PageTable.{present, has}
use aetherion_os.Memory.PageTable.Bits.{address_field}
use aetherion_os.Memory.Paging.{
  Memory, Machine, MapperError, out_of_memory, page_already_mapped, invalid_address,
  table_creation_failed, Result, ok, err,
}
use aetherion_os.Memory.Paging.Lookup.{walk, path, path-All}
use aetherion_os.Memory.Paging.Tree.{Place, Places, root_place, number, IsTree}
use aetherion_os.Memory.Paging.Descent.{Leads}

-- The entry for the page of an address, and the number of the page.
abbrev pub lookup : PhysicalAddress → Memory → VirtualAddress → Option PhysicalAddress
lookup root m v = walk m (path v) root

abbrev pub page_of : VirtualAddress → ℕ
page_of v = v / 2 ^ 12 % 2 ^ 36

pub number-path : (v : VirtualAddress) → number 0 (path v) ≡ page_of v
number-path v = omega (arith, indices v)

abbrev pub Aligned : VirtualAddress → PhysicalAddress → Type 0
Aligned v phys = (v % 4096 ≡ 0) × (phys % 4096 ≡ 0)

abbrev pub SameLookups : PhysicalAddress → Memory → Memory → Type 0
SameLookups root m m' = (v : VirtualAddress) → lookup root m' v ≡ lookup root m v

-- The page is mapped, and no other lookup changes.
pub record MapsPage (root : PhysicalAddress) (v : VirtualAddress) (phys : PhysicalAddress)
    (flags : ℕ) (w w' : Machine) : Type 0 where
  pub places : Places
  pub tree : IsTree root w'.memory w'.allocator places
  pub aligned : Aligned v phys
  pub before : lookup root w.memory v ≡ none
  pub after :
      lookup root w'.memory v ≡ (if has flags present then some (address_field phys) else none)
  pub others :
      (u : VirtualAddress)
      → page_of u ≢ page_of v
      → lookup root w'.memory u ≡ lookup root w.memory u
  pub flushed : w'.flushed ≡ v ∷ w.flushed

-- Why `map_page` refuses.
abbrev pub Reason :
    PhysicalAddress → VirtualAddress → PhysicalAddress → Machine → Machine → MapperError → Type 0
Reason root v phys w w' out_of_memory = w'.allocator.allocated_frames ≡ w'.allocator.total_frames
Reason root v phys w w' page_already_mapped =
    (u : PhysicalAddress) × (lookup root w.memory v ≡ some u)
Reason root v phys w w' invalid_address = ¬ (Aligned v phys)
Reason root v phys w w' table_creation_failed = ⊥

pub record Refuses (root : PhysicalAddress) (v : VirtualAddress) (phys : PhysicalAddress)
    (w : Machine) (e : MapperError) (w' : Machine) : Type 0 where
  pub places : Places
  pub tree : IsTree root w'.memory w'.allocator places
  pub same : SameLookups root w.memory w'.memory
  pub flushed : w'.flushed ≡ w.flushed
  pub reason : Reason root v phys w w' e

abbrev pub Mapped :
    PhysicalAddress
    → VirtualAddress
    → PhysicalAddress
    → ℕ
    → Machine
    → Result (Unit {0}) × Machine
    → Type 0
Mapped root v phys flags w (ok _, w') = MapsPage root v phys flags w w'
Mapped root v phys flags w (err e, w') = Refuses root v phys w e w'

pub Leads-SameLookups :
    {root : PhysicalAddress} {places : Places} {w w' : Machine} {is : List ℕ} {t : PhysicalAddress}
    {p : Place}
    → IsTree root w.memory w.allocator places
    → Leads root places w is t p w'
    → SameLookups root w.memory w'.memory
Leads-SameLookups {root} {w = w} tree l v = elim (Option-cases (lookup root w.memory v)) [
  | inl e ↦ l.kept_none (path v) root root_place tree.root_at (path-All v) refl e ∙ sym e
  | inr (u, e) ↦ l.kept (path v) root root_place u tree.root_at (path-All v) (omega arith) e ∙ sym e
]

pub Leads-Refuses :
    {root : PhysicalAddress} {places : Places} {w w' : Machine} {is : List ℕ} {t : PhysicalAddress}
    {p : Place} (v : VirtualAddress) (phys : PhysicalAddress) (e : MapperError)
    → IsTree root w.memory w.allocator places
    → Leads root places w is t p w'
    → Reason root v phys w w' e
    → Refuses root v phys w e w'
Leads-Refuses v phys e tree l reason = record {
  places = l.places';
  tree = l.tree;
  same = Leads-SameLookups tree l;
  flushed = l.flushed;
  reason = reason;
}
