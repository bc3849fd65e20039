-- ===== src/Memory/Paging/Lookup.antt =====
-- The walks of kernel/src/memory/paging.rs as one function of the list of indices.
use aetherion_os.Base.{
  ℕ, ◌<◌, ◌≡◌, refl, if◌then◌else◌, Option, none, some, List, [], ◌∷◌, All, Run, done, ◌>>=◌, arith,
  lt→ltb,
}
use aetherion_os.Base.Word.{add_usize}
use aetherion_os.Memory.Address.{
  PhysicalAddress, VirtualAddress, pml4_index, pdpt_index, pd_index, pt_index, page_offset, indices,
}
use aetherion_os.Memory.PageTable.{PageTable, entry, is_present, physical_address}
use aetherion_os.Memory.Paging.{PageMapper, Memory, next_table, if_some, translate}

-- The table that an entry points to, if it is present.
abbrev pub follow : Memory → PhysicalAddress → ℕ → Option PhysicalAddress
follow m t i =
    if is_present ((m t).entries i) then some (physical_address ((m t).entries i)) else none

abbrev pub walk : Memory → List ℕ → PhysicalAddress → Option PhysicalAddress
walk m [] t = some t
walk m (i ∷ is) t = if_some (follow m t i) none (λ u. walk m is u)

abbrev pub IsIndex : ℕ → Type 0
IsIndex i = i < 512

-- The way to the page table of an address, and to the page itself.
abbrev pub table_path : VirtualAddress → List ℕ
table_path v = pml4_index v ∷ pdpt_index v ∷ pd_index v ∷ []

abbrev pub path : VirtualAddress → List ℕ
path v = pml4_index v ∷ pdpt_index v ∷ pd_index v ∷ pt_index v ∷ []

pub path-All : (v : VirtualAddress) → All IsIndex (path v)
path-All v =
    let (a, b, c, d, e) = indices v in
    (omega (arith, a), (omega (arith, b), (omega (arith, c), (omega (arith, d), tt))))

pub entry_in_range : (t : PageTable) {i : ℕ} → i < 512 → entry t i ≡ done (t.entries i)
entry_in_range t {i} h = rw (lt→ltb i 512 h) refl

pub next_table_lem :
    (m : Memory) (t : PhysicalAddress) {i : ℕ} → i < 512 → next_table m t i ≡ done (follow m t i)
unfolding next_table
next_table_lem m t h = rw (entry_in_range (m t) h) refl

-- One test of the source goes one entry down.
module _ {ℓ} {R : Type ℓ} (m : Memory) (refuse : R) (h : PhysicalAddress → R) where
  if_some-walk :
      (o : Option PhysicalAddress) (is : List ℕ) (k : PhysicalAddress → R)
      → ((a : PhysicalAddress) → k a ≡ if_some (walk m is a) refuse h)
      → if_some o refuse k ≡ if_some (if_some o none (λ u. walk m is u)) refuse h
  if_some-walk none is k e = refl
  if_some-walk (some a) is k e = e a

module _ {ℓ} {R : Type ℓ} (m : Memory) (refuse : Run R) (h : PhysicalAddress → Run R) where
  pub down :
      (t : PhysicalAddress) {i : ℕ} (is : List ℕ) (k : PhysicalAddress → Run R)
      → i < 512
      → ((a : PhysicalAddress) → k a ≡ if_some (walk m is a) refuse h)
      → (next_table m t i >>= λ o. if_some o refuse k) ≡ if_some (walk m (i ∷ is) t) refuse h
  down t {i} is k lt e = rw (next_table_lem m t lt) (if_some-walk m refuse h (follow m t i) is k e)

-- `translate` is the walk along the four indices.
pub translate_lem :
    (p : PageMapper) (m : Memory) (v : VirtualAddress)
    → translate p m v
      ≡ if_some
          (walk m (path v) p.pml4_address)
          (done none)
          λ frame. done (some (add_usize frame (page_offset v)))
unfolding translate
translate_lem p m v =
    let h : PhysicalAddress → Run (Option PhysicalAddress) =
      λ frame. done (some (add_usize frame (page_offset v))) in
    let (a, (b, (c, (d, _)))) = path-All v in
    down m (done none) h p.pml4_address (pdpt_index v ∷ pd_index v ∷ pt_index v ∷ []) _ a λ pdpt.
      down m (done none) h pdpt (pd_index v ∷ pt_index v ∷ []) _ b λ pd.
        down m (done none) h pd (pt_index v ∷ []) _ c
          λ pt. down m (done none) h pt [] h d λ frame. refl
