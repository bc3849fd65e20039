-- ===== src/Memory/Paging/Create.antt =====
-- `get_or_create_table` (kernel/src/memory/paging.rs) goes one table down, and makes it if need be.
use aetherion_os.Base.{
  ℕ, ◌<◌, ◌≡◌, ◌≢◌, refl, ap, ◌∙◌, inl, inr, true, false, Bool-cases, Option, none, some, [], ◌∷◌,
  arith, eq→==, done, Returns,
}
use aetherion_os.Memory.Address.{PhysicalAddress}
use aetherion_os.Memory.FrameAllocator.{FrameAllocator, allocate_frame}
use aetherion_os.Memory.FrameAllocator.Allocate.{Allocates, allocate_frame-Allocates}
use aetherion_os.Memory.PageTable.{is_present, physical_address, PageTableEntry}
use aetherion_os.Memory.Paging.{Machine, out_of_memory, Result, ok, err, get_or_create_table}
use aetherion_os.Memory.Paging.Lookup.{walk, entry_in_range}
use aetherion_os.Memory.Paging.Tree.{
  Place, Places, below, IsTree, Keeps, KeepsNone, keeps, walk_present,
}
use aetherion_os.Memory.Paging.Grow
use aetherion_os.Memory.Paging.Grow.{grow, grow-Grown, with_place, grown-IsTree, table_flags}

-- What is known after a step down from table `t`, at place `p`, by its entry `i`.
pub record Descended (root : PhysicalAddress) (places : Places) (t : PhysicalAddress) (p : Place)
    (i : ℕ) (w : Machine) (t' : PhysicalAddress) (w' : Machine) : Type 0 where
  pub places' : Places
  pub extends : (s : PhysicalAddress) (q : Place) → places s ≡ some q → places' s ≡ some q
  pub tree : IsTree root w'.memory w'.allocator places'
  pub at : places' t' ≡ some (below p i)
  pub linked : walk w'.memory (i ∷ []) t ≡ some t'
  pub kept : Keeps places w.memory w'.memory
  pub kept_none : KeepsNone places w.memory w'.memory
  pub flushed : w'.flushed ≡ w.flushed

abbrev pub Created :
    PhysicalAddress
    → Places
    → PhysicalAddress
    → Place
    → ℕ
    → Machine
    → Result PhysicalAddress × Machine
    → Type 0
Created root places t p i w (ok t', w') = Descended root places t p i w t' w'
Created root places t p i w (err e, w') =
    (e ≡ out_of_memory) × (w' ≡ w) × (w.allocator.allocated_frames ≡ w.allocator.total_frames)

stay :
    {root : PhysicalAddress} {places : Places} (t : PhysicalAddress) (p : Place) (i : ℕ)
    (w : Machine)
    → IsTree root w.memory w.allocator places
    → places t ≡ some p
    → p.depth < 3
    → i < 512
    → is_present ((w.memory t).entries i) ≡ true
    → Descended root places t p i w (physical_address ((w.memory t).entries i)) w
stay {places = places} t p i w tree at shallow index here = record {
  places' = places;
  extends = λ s q h. h;
  tree = tree;
  at = tree.child t p i at shallow index here;
  linked = walk_present w.memory t i [] here;
  kept = λ is s q u h all depth e. e;
  kept_none = λ is s q h all full e. e;
  flushed = refl;
}

make :
    {root : PhysicalAddress} {places : Places} {fa' : FrameAllocator} (t : PhysicalAddress)
    (p : Place) (i : ℕ) (w : Machine) (frame : PhysicalAddress) (e : PageTableEntry)
    → IsTree root w.memory w.allocator places
    → places t ≡ some p
    → p.depth < 3
    → i < 512
    → is_present ((w.memory t).entries i) ≡ false
    → Allocates w.allocator (some frame, fa')
    → Descended root places t p i w frame
        (record { memory = grow w.memory t i e frame; allocator = fa'; flushed = w.flushed })
make {root} {places} {fa'} t p i w frame e tree at shallow index absent
      (valid, _, (k, starts, clear, _, marks)) =
    let ne : t ≢ frame = λ q.
      let taken =
        tree.taken t p k at
          (record { known = starts.known; exact = omega (arith, q, starts.exact) }) in
      cc in
    let g =
      grow-Grown w.memory t i e frame ne
        (omega (arith, starts.exact, tree.allocator.region.aligned))
        (omega (arith, starts.exact, starts.known, tree.low)) in
    record {
      places' = with_place places frame (below p i);
      extends = Grow.extends t p i frame k tree at shallow index absent starts clear marks valid g;
      tree = grown-IsTree t p i frame k tree at shallow index absent starts clear marks valid g;
      at = rw (eq→== frame frame refl) refl;
      linked = walk_present (grow w.memory t i e frame) t i [] g.here ∙ ap some g.target;
      kept =
          keeps t i tree
            (Grow.same_elsewhere t p i frame k tree at shallow index absent starts clear marks valid
              g)
            absent;
      kept_none =
          Grow.kept_none t p i frame k tree at shallow index absent starts clear marks valid g;
      flushed = refl;
    }

after_allocate :
    {root : PhysicalAddress} {places : Places} (t : PhysicalAddress) (p : Place) (i : ℕ)
    (w : Machine)
    → IsTree root w.memory w.allocator places
    → places t ≡ some p
    → p.depth < 3
    → i < 512
    → is_present ((w.memory t).entries i) ≡ false
    → (r : Option PhysicalAddress × FrameAllocator) → allocate_frame w.allocator ≡ done r
    → Allocates w.allocator r
    → Returns (get_or_create_table t i w) (Created root places t p i w)
unfolding get_or_create_table
after_allocate t p i w tree at shallow index absent (none, fa') run (unchanged, full) = (
  (err out_of_memory, record w { allocator = fa' }),
  rw (entry_in_range (w.memory t) index, absent, run) refl,
  (refl, ap (λ (x : FrameAllocator). record w { allocator = x }) unchanged, full),
)
after_allocate t p i w tree at shallow index absent (some frame, fa') run promise = (
  (ok frame, _),
  rw (entry_in_range (w.memory t) index, absent, run) refl,
  make t p i w frame ((w.memory t).entries i) tree at shallow index absent promise,
)

-- `get_or_create_table` at a table of the tree above the last depth does not panic: it goes down,
-- or it reports that no frame is free and changes nothing.
pub get_or_create_table-Created :
    {root : PhysicalAddress} {places : Places} (t : PhysicalAddress) (p : Place) (i : ℕ)
    (w : Machine)
    → IsTree root w.memory w.allocator places
    → places t ≡ some p
    → p.depth < 3
    → i < 512
    → Returns (get_or_create_table t i w) (Created root places t p i w)
unfolding get_or_create_table
get_or_create_table-Created {root} {places} t p i w tree at shallow index =
    elim (Bool-cases (is_present ((w.memory t).entries i))) [
      | inl here ↦ (
        (ok _, w),
        rw (entry_in_range (w.memory t) index, here) refl,
        stay t p i w tree at shallow index here,
      )
      | inr absent ↦
          let (r, run, promise) = allocate_frame-Allocates tree.allocator in
          after_allocate t p i w tree at shallow index absent r run promise
    ]
