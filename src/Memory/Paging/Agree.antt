-- ===== src/Memory/Paging/Agree.antt =====
-- Memories of kernel/src/memory/paging.rs that agree but for one entry, and the walks through them.
use aetherion_os.Base.{
  ℕ, ◌+◌, ◌*◌, ◌≤◌, ◌≡◌, refl, sym, ap, ◌∙◌, ◌⊎◌, inl, inr, Bool-cases, if◌then◌else◌, none, some,
  List, [], ◌∷◌, All, length, arith, ℕ_discrete, ne→==, eq→==,
}
use aetherion_os.Memory.Address.{
  PhysicalAddress, VirtualAddress, pml4_index, pdpt_index, pd_index, pt_index,
}
use aetherion_os.Memory.FrameAllocator.{FrameAllocator}
use aetherion_os.Memory.PageTable.{is_present, physical_address, PageTableEntry, write}
use aetherion_os.Memory.Paging.{Memory, if_some, store}
use aetherion_os.Memory.Paging.Lookup.{walk, IsIndex}
use aetherion_os.Memory.Paging.Tree.{
  Place, Places, root_place, below, number, IsTree, SameElsewhere, walk_present, walk_absent,
  none-some,
}
use aetherion_os.Memory.Paging.Grow.{some_injective}
use aetherion_os.Memory.Paging.Mapped.{page_of, number-path}

-- The place of the table with the entry for the page of an address.
abbrev pub page_place : VirtualAddress → Place
page_place v = below (below (below root_place (pml4_index v)) (pdpt_index v)) (pd_index v)

abbrev pub with_entry : Memory → PhysicalAddress → ℕ → PageTableEntry → Memory
with_entry m t i e = store m t (write (m t) i e)

pub with_entry-SameElsewhere :
    (places : Places) (m : Memory) (t : PhysicalAddress) (i : ℕ) (e : PageTableEntry)
    → SameElsewhere places m (with_entry m t i e) t i
with_entry-SameElsewhere places m t i e s p j at other = elim (ℕ_discrete s t) [
  | yes a ↦ elim (ℕ_discrete j i) [
    | yes b ↦ absurd (other (a, b))
    | no b ↦ rw (eq→== s t a, ne→== j i b) (ap (λ (x : ℕ). (m x).entries j) (sym a))
  ]
  | no a ↦ rw (ne→== s t a) refl
]

pub with_entry_here :
    (m : Memory) (t : PhysicalAddress) (i : ℕ) (e : PageTableEntry)
    → (with_entry m t i e t).entries i ≡ e
with_entry_here m t i e = rw (eq→== t t refl, eq→== i i refl) refl

-- An entry of a page table can change: only a table above the last depth has children.
pub with_entry-IsTree :
    {root : PhysicalAddress} {m : Memory} {fa : FrameAllocator} {places : Places}
    (pt : PhysicalAddress) (v : VirtualAddress) (e : PageTableEntry)
    → places pt ≡ some (page_place v)
    → IsTree root m fa places
    → IsTree root (with_entry m pt (pt_index v) e) fa places
with_entry-IsTree {m = m} {places = places} pt v e last tree = record {
  allocator = tree.allocator;
  low = tree.low;
  root_at = tree.root_at;
  shallow = tree.shallow;
  child = λ s q j at depth lt here.
      let other : ¬ ((s ≡ pt) × (j ≡ pt_index v)) = λ r.
        let same_place = some_injective (sym last ∙ ap places (sym r.0) ∙ at) in
        omega (arith, ap (λ (x : Place). x.depth) same_place, depth) in
      let same = with_entry-SameElsewhere places m pt (pt_index v) e s q j at other in
      ap (λ (x : ℕ). places (physical_address x)) same
      ∙ tree.child s q j at depth lt (ap is_present (sym same) ∙ here);
  taken = tree.taken;
}

-- Whatever comes to that entry leads to the page.
pub last_entry :
    (places : Places) (pt : PhysicalAddress) (v : VirtualAddress) (q : Place) (rest : List ℕ)
    → places pt ≡ some (page_place v)
    → places pt ≡ some q
    → q.depth + length (pt_index v ∷ rest) ≡ 4
    → number q.prefix (pt_index v ∷ rest) ≡ page_of v
last_entry places pt v q [] last at full =
    ap (λ (x : Place). number x.prefix (pt_index v ∷ [])) (some_injective (sym at ∙ last))
    ∙ number-path v
last_entry places pt v q (k ∷ rest) last at full =
    absurd (omega (arith, full, ap (λ (x : Place). x.depth) (some_injective (sym at ∙ last))))

-- The walk along `is` from place `p` comes to entry `i` of table `t`.
pub record Meets (places : Places) (t : PhysicalAddress) (i : ℕ) (p : Place) (is : List ℕ)
    : Type 0 where
  pub place : Place
  pub rest : List ℕ
  pub at : places t ≡ some place
  pub full : place.depth + length (i ∷ rest) ≡ 4
  pub same_number : number p.prefix is ≡ number place.prefix (i ∷ rest)

-- Two memories that agree but for the entry `i` of table `t`.
module _ {root : PhysicalAddress} {m m' : Memory} {fa : FrameAllocator} {places : Places}
    (t : PhysicalAddress) (i : ℕ) (tree : IsTree root m fa places)
    (same : SameElsewhere places m m' t i) where
  below-Meets :
      (p : Place) (j : ℕ) (is : List ℕ) (s u : PhysicalAddress)
      → walk m' (j ∷ is) s ≡ walk m' is u
      → walk m (j ∷ is) s ≡ walk m is u
      → (walk m' is u ≡ walk m is u) ⊎ Meets places t i (below p j) is
      → (walk m' (j ∷ is) s ≡ walk m (j ∷ is) s) ⊎ Meets places t i p (j ∷ is)
  below-Meets p j is s u e' e (inl r) = inl (e' ∙ r ∙ sym e)
  below-Meets p j is s u e' e (inr q) = inr (record {
    place = q.place;
    rest = q.rest;
    at = q.at;
    full = q.full;
    same_number = q.same_number;
  })

  elsewhere :
      (is : List ℕ) (s : PhysicalAddress) (p : Place) (j : ℕ)
      → places s ≡ some p
      → All IsIndex (j ∷ is)
      → p.depth + length (j ∷ is) ≡ 4
      → (m' s).entries j ≡ (m s).entries j
      → ((u : PhysicalAddress) (q : Place)
          → places u ≡ some q
          → q.depth + length is ≡ 4
          → (walk m' is u ≡ walk m is u) ⊎ Meets places t i q is)
      → (walk m' (j ∷ is) s ≡ walk m (j ∷ is) s) ⊎ Meets places t i p (j ∷ is)
  elsewhere [] s p j at all full e ih = inl (
      ap
        (λ (x : ℕ).
          if_some (if is_present x then some (physical_address x) else none) none (λ u. some u))
        e)
  elsewhere (k ∷ is) s p j at all full e ih = elim (Bool-cases (is_present ((m s).entries j))) [
    | inl here ↦
        below-Meets p j (k ∷ is) s (physical_address ((m s).entries j))
          (walk_present m' s j (k ∷ is) (ap is_present e ∙ here)
            ∙ ap (λ (x : ℕ). walk m' (k ∷ is) (physical_address x)) e)
          (walk_present m s j (k ∷ is) here)
          (ih (physical_address ((m s).entries j)) (below p j)
            (tree.child s p j at (omega (arith, full)) all.0 here) (omega (arith, full)))
    | inr gone ↦ inl (
        walk_absent m' s j (k ∷ is) (ap is_present e ∙ gone)
        ∙ sym (walk_absent m s j (k ∷ is) gone))
  ]

  -- Each walk to a page has the same end, or comes to the changed entry.
  pub same_or_Meets :
      (is : List ℕ) (s : PhysicalAddress) (p : Place)
      → places s ≡ some p
      → All IsIndex is
      → p.depth + length is ≡ 4
      → (walk m' is s ≡ walk m is s) ⊎ Meets places t i p is
  same_or_Meets [] s p at all full = inl refl
  same_or_Meets (j ∷ is) s p at all full =
      let ih : (u : PhysicalAddress) (q : Place)
          → places u ≡ some q
          → q.depth + length is ≡ 4
          → (walk m' is u ≡ walk m is u) ⊎ Meets places t i q is =
        λ u q h full. same_or_Meets is u q h all.1 full in
      elim (ℕ_discrete s t) [
        | yes a ↦ elim (ℕ_discrete j i) [
          | yes b ↦ inr (record {
            place = p;
            rest = is;
            at = ap places (sym a) ∙ at;
            full = full;
            same_number = ap (λ (x : ℕ). number (p.prefix * 512 + x) is) b;
          })
          | no b ↦ elsewhere is s p j at all full (same s p j at (λ r. b r.1)) ih
        ]
        | no a ↦ elsewhere is s p j at all full (same s p j at (λ r. a r.0)) ih
      ]

pub found_here : {s u : PhysicalAddress} → some s ≡ some u → s ≡ u
found_here e = cc

-- The place at the end of a walk.
abbrev pub place_after : Place → List ℕ → Place
place_after p [] = p
place_after p (j ∷ is) = place_after (below p j) is

pub walk-places :
    {root : PhysicalAddress} {m : Memory} {fa : FrameAllocator} {places : Places} (is : List ℕ)
    (s : PhysicalAddress) (p : Place) (u : PhysicalAddress)
    → IsTree root m fa places
    → places s ≡ some p
    → All IsIndex is
    → p.depth + length is ≤ 3
    → walk m is s ≡ some u
    → places u ≡ some (place_after p is)
walk-places {places = places} [] s p u tree at all depth found =
    ap places (sym (found_here found)) ∙ at
walk-places {m = m} (j ∷ is) s p u tree at all depth found =
    elim (Bool-cases (is_present ((m s).entries j))) [
      | inl here ↦
          walk-places is (physical_address ((m s).entries j)) (below p j) u tree
            (tree.child s p j at (omega (arith, depth)) all.0 here) all.1 (omega (arith, depth))
            (sym (walk_present m s j is here) ∙ found)
      | inr gone ↦ absurd (none-some (sym (walk_absent m s j is gone) ∙ found))
    ]

-- A walk that ends above the entries of pages does not come to the changed entry of one.
pub short_walk :
    {root : PhysicalAddress} {m m' : Memory} {fa : FrameAllocator} {places : Places}
    (pt : PhysicalAddress) (v : VirtualAddress)
    → places pt ≡ some (page_place v)
    → IsTree root m fa places
    → SameElsewhere places m m' pt (pt_index v)
    → (is : List ℕ) (s : PhysicalAddress) (p : Place) → places s ≡ some p
    → All IsIndex is
    → p.depth + length is ≤ 3
    → walk m' is s ≡ walk m is s
short_walk pt v last tree same [] s p at all depth = refl
short_walk {m = m} {m'} {places = places} pt v last tree same (j ∷ is) s p at all depth =
    let other : ¬ ((s ≡ pt) × (j ≡ pt_index v)) = λ r.
      let same_place = some_injective (sym last ∙ ap places (sym r.0) ∙ at) in
      omega (arith, ap (λ (x : Place). x.depth) same_place, depth) in
    let e = same s p j at other in
    elim (Bool-cases (is_present ((m s).entries j))) [
      | inl here ↦
          walk_present m' s j is (ap is_present e ∙ here)
          ∙ ap (λ (x : ℕ). walk m' is (physical_address x)) e
          ∙ short_walk pt v last tree same is (physical_address ((m s).entries j)) (below p j)
              (tree.child s p j at (omega (arith, depth)) all.0 here) all.1 (omega (arith, depth))
          ∙ sym (walk_present m s j is here)
      | inr gone ↦ walk_absent m' s j is (ap is_present e ∙ gone) ∙ sym (walk_absent m s j is gone)
    ]
