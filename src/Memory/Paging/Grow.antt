-- ===== src/Memory/Paging/Grow.antt =====
-- A new table in the memory of kernel/src/memory/paging.rs: `get_or_create_table` on a missing entry.
use aetherion_os.Base.{
  ℕ, ◌%◌, ◌<◌, ◌^◌, ◌≡◌, ◌≢◌, refl, sym, ap, ◌∙◌, ◌⊎◌, inl, inr, true, false, if◌then◌else◌, none,
  some, List, [], ◌∷◌, All, length, arith, ℕ_discrete, ◌==◌, ne→==, eq→==, bit_or,
}
use aetherion_os.Memory.Address.{PhysicalAddress}
use aetherion_os.Memory.Bitmap.View.{bit}
use aetherion_os.Memory.FrameAllocator.{FrameAllocator}
use aetherion_os.Memory.FrameAllocator.Valid.{Starts}
use aetherion_os.Memory.FrameAllocator.Allocate.{Marks}
use aetherion_os.Memory.FrameAllocator.Valid
use aetherion_os.Memory.PageTable.{
  present, writable, as_u64, is_present, physical_address, set_address, write, zero_table,
  PageTableEntry,
}
use aetherion_os.Memory.PageTable.Bits.{IsFlags}
use aetherion_os.Memory.PageTable.Entry.{
  set_address-Holds, zero_table_lem, is_present-zero, present-lem,
}
use aetherion_os.Memory.Paging.{Memory, store}
use aetherion_os.Memory.Paging.Lookup.{walk, IsIndex}
use aetherion_os.Memory.Paging.Tree.{
  Place, Places, below, IsTree, KeepsNone, SameElsewhere, none_or_Passes, walk_present, walk_absent,
}

-- The memory after a table was made at `frame` and entered in table `t` at index `i`.
pub record Grown (m m' : Memory) (t : PhysicalAddress) (i : ℕ) (frame : PhysicalAddress)
    : Type 0 where
  pub here : is_present ((m' t).entries i) ≡ true
  pub target : physical_address ((m' t).entries i) ≡ frame
  pub empty : (j : ℕ) → j < 512 → (m' frame).entries j ≡ 0
  pub others :
      (s : PhysicalAddress) (j : ℕ)
      → s ≢ frame
      → ¬ ((s ≡ t) × (j ≡ i))
      → (m' s).entries j ≡ (m s).entries j

abbrev pub table_flags : ℕ
table_flags = bit_or (as_u64 present) (as_u64 writable)

table_flags-IsFlags : IsFlags table_flags
table_flags-IsFlags = record { low = omega arith; bound = omega arith }

abbrev pub grow : Memory → PhysicalAddress → ℕ → PageTableEntry → PhysicalAddress → Memory
grow m t i e frame =
    let m' = store m t (write (m t) i (set_address e frame table_flags)) in
    store m' frame (zero_table (m' frame))

-- A write to one entry and one to one table leave all other entries.
grow-others :
    (m : Memory) (t : PhysicalAddress) (i : ℕ) (e : PageTableEntry) (frame s : PhysicalAddress)
    (j : ℕ)
    → s ≢ frame
    → ¬ ((s ≡ t) × (j ≡ i))
    → ((grow m t i e frame) s).entries j ≡ (m s).entries j
grow-others m t i e frame s j far other = elim (ℕ_discrete s t) [
  | yes a ↦ elim (ℕ_discrete j i) [
    | yes b ↦ absurd (other (a, b))
    | no b ↦
        rw (ne→== s frame far, eq→== s t a, ne→== j i b) (ap (λ (x : ℕ). (m x).entries j) (sym a))
  ]
  | no a ↦ rw (ne→== s frame far, ne→== s t a) refl
]

pub grow-Grown :
    (m : Memory) (t : PhysicalAddress) (i : ℕ) (e : PageTableEntry) (frame : PhysicalAddress)
    → t ≢ frame
    → frame % 4096 ≡ 0
    → frame < 2 ^ 52
    → Grown m (grow m t i e frame) t i frame
grow-Grown m t i e frame ne aligned low =
    let holds = set_address-Holds e frame table_flags table_flags-IsFlags in
    let new_entry : ((grow m t i e frame) t).entries i ≡ set_address e frame table_flags =
      rw (ne→== t frame ne, eq→== t t refl, eq→== i i refl) refl in
    record {
      here = ap is_present new_entry ∙ holds.each present ∙ present-lem;
      target = ap physical_address new_entry ∙ holds.address ∙ omega (arith, aligned, low);
      empty = λ j h. rw (eq→== frame frame refl) (zero_table_lem _ j h);
      others = grow-others m t i e frame;
    }

pub some_injective : {p q : Place} → some p ≡ some q → p ≡ q
some_injective e = cc

pub true-false : true ≡ false → ⊥
true-false e = cc

-- The new table has the place below its entry.
abbrev pub with_place : Places → PhysicalAddress → Place → Places
with_place places frame p s = if s == frame then some p else places s

module _ {root : PhysicalAddress} {m m' : Memory} {fa fa' : FrameAllocator} {places : Places}
    (t : PhysicalAddress) (p : Place) (i : ℕ) (frame : PhysicalAddress) (k : ℕ)
    (tree : IsTree root m fa places) (at : places t ≡ some p) (shallow : p.depth < 3)
    (index : i < 512) (absent : is_present ((m t).entries i) ≡ false) (starts : Starts fa k frame)
    (clear : bit fa.bitmap k ≡ false) (marks : Marks fa k true fa') (valid : Valid.IsValid fa')
    (grown : Grown m m' t i frame) where
  -- A free frame is no table.
  unplaced : (s : PhysicalAddress) (q : Place) → places s ≡ some q → s ≢ frame
  unplaced s q h e =
      let taken =
        tree.taken s q k h
          (record { known = starts.known; exact = omega (arith, e, starts.exact) }) in
      cc

  pub same_elsewhere : SameElsewhere places m m' t i
  same_elsewhere s q j h other = grown.others s j (unplaced s q h) other

  pub extends :
      (s : PhysicalAddress) (q : Place)
      → places s ≡ some q
      → with_place places frame (below p i) s ≡ some q
  extends s q h = rw (ne→== s frame (unplaced s q h)) h

  pub placed_new : with_place places frame (below p i) frame ≡ some (below p i)
  placed_new = rw (eq→== frame frame refl) refl

  placed_cases :
      (s : PhysicalAddress) (q : Place)
      → with_place places frame (below p i) s ≡ some q
      → ((s ≡ frame) × (below p i ≡ q)) ⊎ ((s ≢ frame) × (places s ≡ some q))
  placed_cases s q h = elim (ℕ_discrete s frame) [
    | yes e ↦
        let new : with_place places frame (below p i) s ≡ some (below p i) =
          rw (eq→== s frame e) refl in
        inl (e, some_injective (sym new ∙ h))
    | no ne ↦
        let old : with_place places frame (below p i) s ≡ places s = rw (ne→== s frame ne) refl in
        inr (ne, sym old ∙ h)
  ]

  kept_child :
      (s : PhysicalAddress) (q : Place) (j : ℕ)
      → places s ≡ some q
      → q.depth < 3
      → j < 512
      → is_present ((m' s).entries j) ≡ true
      → ¬ ((s ≡ t) × (j ≡ i))
      → with_place places frame (below p i) (physical_address ((m' s).entries j)) ≡ some (below q j)
  kept_child s q j old depth lt here other =
      let e = same_elsewhere s q j old other in
      let target = tree.child s q j old depth lt (ap is_present (sym e) ∙ here) in
      ap (λ (x : ℕ). with_place places frame (below p i) (physical_address x)) e
      ∙ extends _ (below q j) target

  old_child :
      (s : PhysicalAddress) (q : Place) (j : ℕ)
      → places s ≡ some q
      → q.depth < 3
      → j < 512
      → is_present ((m' s).entries j) ≡ true
      → with_place places frame (below p i) (physical_address ((m' s).entries j)) ≡ some (below q j)
  old_child s q j old depth lt here = elim (ℕ_discrete s t) [
    | yes a ↦ elim (ℕ_discrete j i) [
      | yes b ↦
          let e : (m' s).entries j ≡ (m' t).entries i =
            ap (λ (x : ℕ). (m' x).entries j) a ∙ ap (λ (x : ℕ). (m' t).entries x) b in
          let same_place : p ≡ q = some_injective (sym at ∙ ap places (sym a) ∙ old) in
          ap (with_place places frame (below p i)) (ap physical_address e ∙ grown.target)
          ∙ placed_new
          ∙ ap (λ (x : Place). some (below x i)) same_place
          ∙ ap (λ (x : ℕ). some (below q x)) (sym b)
      | no b ↦ kept_child s q j old depth lt here (λ r. b r.1)
    ]
    | no a ↦ kept_child s q j old depth lt here (λ r. a r.0)
  ]

  child :
      (s : PhysicalAddress) (q : Place) (j : ℕ)
      → with_place places frame (below p i) s ≡ some q
      → q.depth < 3
      → j < 512
      → is_present ((m' s).entries j) ≡ true
      → with_place places frame (below p i) (physical_address ((m' s).entries j)) ≡ some (below q j)
  child s q j h depth lt here = elim (placed_cases s q h) [
    | inl (new, _) ↦
        let e : (m' s).entries j ≡ 0 = ap (λ (x : ℕ). (m' x).entries j) new ∙ grown.empty j lt in
        absurd (true-false (sym here ∙ ap is_present e ∙ is_present-zero))
    | inr (_, old) ↦ old_child s q j old depth lt here
  ]

  taken :
      (s : PhysicalAddress) (q : Place) (j : ℕ)
      → with_place places frame (below p i) s ≡ some q
      → Starts fa' j s
      → bit fa'.bitmap j ≡ true
  taken s q j h st = elim (placed_cases s q h) [
    | inl (new, _) ↦
        let same_frame : j ≡ k = omega (arith, st.exact, starts.exact, marks.start, new) in
        marks.marks j ∙ rw (eq→== k j (sym same_frame)) refl
    | inr (_, old) ↦
        let before = tree.taken s q j old (record {
          known = omega (arith, st.known, marks.total);
          exact = omega (arith, st.exact, marks.start);
        }) in
        let other : j ≢ k =
          λ e. unplaced s q old (omega (arith, st.exact, starts.exact, marks.start, e)) in
        marks.marks j ∙ rw (ne→== k j (λ e. other (sym e))) before
  ]

  none_in_empty : (is : List ℕ) → All IsIndex is → 0 < length is → walk m' is frame ≡ none
  none_in_empty [] all h = absurd (omega arith)
  none_in_empty (j ∷ is) all h =
      walk_absent m' frame j is (ap is_present (grown.empty j all.0) ∙ is_present-zero)

  pub kept_none : KeepsNone places m m'
  kept_none is s q h all full none_before =
      elim (none_or_Passes t i tree same_elsewhere absent is s q h all full none_before) [
        | inl e ↦ e
        | inr through ↦
            let same_place = some_injective (sym through.at ∙ at) in
            through.same_walk
            ∙ walk_present m' t i through.rest grown.here
            ∙ ap (walk m' through.rest) grown.target
            ∙ none_in_empty through.rest through.indices
                (omega (arith, through.full, ap (λ (x : Place). x.depth) same_place))
      ]

  pub grown-IsTree : IsTree root m' fa' (with_place places frame (below p i))
  grown-IsTree = record {
    allocator = valid;
    low = omega (arith, tree.low, marks.start, marks.total);
    root_at = extends root _ tree.root_at;
    shallow = λ s q h. elim (placed_cases s q h) [
      | inl (_, e) ↦ omega (arith, ap (λ (x : Place). x.depth) e)
      | inr (_, old) ↦ tree.shallow s q old
    ];
    child = child;
    taken = taken;
  }
