-- ===== src/Memory/Paging.antt =====
-- kernel/src/memory/paging.rs: the page mapper, over a physical memory that holds a page table at
-- each address that one is read or written at. `invlpg` is kept as the list of the pages that have
-- been invalidated, the last one first.
pub mod Lookup
pub mod Tree
pub mod Grow
pub mod Create
pub mod Descent
pub mod Mapped
pub mod Agree
pub mod Map
pub mod Unmap
pub mod Translate
pub mod Start
pub mod Identity
mod Tests
use aetherion_os.Base.{
  ◌/◌, ◌-◌, ℕ, zero, suc, ◌+◌, ◌==◌, ◌<◌, ltb, not, ◌||◌, bit_or, Bool, true, false, if◌then◌else◌,
  Option, none, some, List, [], ◌∷◌, Run, done, panic, ◌>>=◌,
}
use aetherion_os.Base.Word.{add_usize}
use aetherion_os.Memory.Address.{
  PhysicalAddress, VirtualAddress, page_size, align_down, align_up, is_aligned, pml4_index,
  pdpt_index, pd_index, pt_index, page_offset,
}
use aetherion_os.Memory.FrameAllocator.{FrameAllocator, allocate_frame}
use aetherion_os.Memory.PageTable.{
  PageTable, PageTableEntry, present, writable, as_u64, set_address, physical_address, is_present,
  clear, entry, write, zero_table,
}

pub data MapperError : Type 0 where
  out_of_memory : MapperError
  page_already_mapped : MapperError
  invalid_address : MapperError
  table_creation_failed : MapperError

-- `Result<A, MapperError>`
pub data Result {ℓ} (A : Type ℓ) : Type ℓ where
  ok : A → Result A
  err : MapperError → Result A

pub record PageMapper : Type 0 where
  pub pml4_address : PhysicalAddress

abbrev pub Memory : Type 0
Memory = PhysicalAddress → PageTable

abbrev pub store : Memory → PhysicalAddress → PageTable → Memory
store m addr t = λ a. if a == addr then t else m a

-- What the mapper changes: the memory, the frame allocator, and the translation buffer.
pub record Machine : Type 0 where
  pub memory : Memory
  pub allocator : FrameAllocator
  pub flushed : List VirtualAddress

-- A step of the mapper: a panic, or a result and a new machine.
abbrev pub Action {ℓ} : Type ℓ → Type ℓ
Action A = Machine → Run (Result A × Machine)

-- `?` on a result
abbrev pub and_then {ℓ κ} :
    {A : Type ℓ} {B : Type κ} → Result A × Machine → (A → Action B) → Run (Result B × Machine)
and_then (err e, m) f = done (err e, m)
and_then (ok a, m) f = f a m

abbrev pub set_entry : Machine → PhysicalAddress → ℕ → PageTableEntry → Machine
set_entry m table index e = record m {
  memory = store m.memory table (write (m.memory table) index e);
}

abbrev pub zero_at : Machine → PhysicalAddress → Machine
zero_at m table = record m { memory = store m.memory table (zero_table (m.memory table)) }

-- The entry is given by the address of its table and its index.
pub get_or_create_table : PhysicalAddress → ℕ → Action PhysicalAddress
get_or_create_table table index m = entry (m.memory table) index >>= λ e.
    if is_present e
    then done (ok (physical_address e), m)
    else (allocate_frame m.allocator >>= λ r.
        let m' : Machine = record m { allocator = r.1 } in
        elim r.0 [
          | none ↦ done (err out_of_memory, m')
          | some frame ↦
              let flags = bit_or (as_u64 present) (as_u64 writable) in
              done (ok frame, zero_at (set_entry m' table index (set_address e frame flags)) frame)
        ])

abbrev pub flush_tlb : Machine → VirtualAddress → Machine
flush_tlb m virt_addr = record m { flushed = virt_addr ∷ m.flushed }

-- The last part of `map_page`: the entry in the page table.
pub map_entry : PhysicalAddress → VirtualAddress → PhysicalAddress → ℕ → Action (Unit {0})
map_entry pt virt_addr phys_addr flags m = entry (m.memory pt) (pt_index virt_addr) >>= λ e.
    if is_present e
    then done (err page_already_mapped, m)
    else done (
      ok tt,
      flush_tlb (set_entry m pt (pt_index virt_addr) (set_address e phys_addr flags)) virt_addr,
    )

pub map_page : PageMapper → VirtualAddress → PhysicalAddress → ℕ → Action (Unit {0})
map_page mapper virt_addr phys_addr flags m =
    if not (is_aligned virt_addr page_size) || not (is_aligned phys_addr page_size)
    then done (err invalid_address, m)
    else (get_or_create_table mapper.pml4_address (pml4_index virt_addr) m >>= λ r.
        and_then r λ pdpt m. get_or_create_table pdpt (pdpt_index virt_addr) m >>= λ r.
        and_then r λ pd m. get_or_create_table pd (pd_index virt_addr) m >>= λ r.
        and_then r λ pt m. map_entry pt virt_addr phys_addr flags m)

-- `if !table[index].is_present() { return ..; }`, then the table that the entry points to.
pub next_table : Memory → PhysicalAddress → ℕ → Run (Option PhysicalAddress)
next_table memory table index = entry (memory table) index >>= λ e.
    done (if is_present e then some (physical_address e) else none)

abbrev pub if_some {ℓ κ} : {A : Type ℓ} {B : Type κ} → Option A → B → (A → B) → B
if_some none b f = b
if_some (some a) b f = f a

pub unmap_page : PageMapper → VirtualAddress → Action PhysicalAddress
unmap_page mapper virt_addr m =
    let refuse : Run (Result PhysicalAddress × Machine) = done (err invalid_address, m) in
    if not (is_aligned virt_addr page_size)
    then refuse
    else (next_table m.memory mapper.pml4_address (pml4_index virt_addr) >>= λ o.
        if_some o refuse λ pdpt. next_table m.memory pdpt (pdpt_index virt_addr) >>= λ o.
        if_some o refuse λ pd. next_table m.memory pd (pd_index virt_addr) >>= λ o.
        if_some o refuse λ pt. next_table m.memory pt (pt_index virt_addr) >>= λ o.
        if_some o refuse λ phys_addr.
          done (ok phys_addr, flush_tlb (set_entry m pt (pt_index virt_addr) 0) virt_addr))

pub translate : PageMapper → Memory → VirtualAddress → Run (Option PhysicalAddress)
translate mapper memory virt_addr =
    next_table memory mapper.pml4_address (pml4_index virt_addr) >>= λ o.
    if_some o (done none) λ pdpt. next_table memory pdpt (pdpt_index virt_addr) >>= λ o.
    if_some o (done none) λ pd. next_table memory pd (pd_index virt_addr) >>= λ o.
    if_some o (done none) λ pt. next_table memory pt (pt_index virt_addr) >>= λ o.
    if_some o (done none) λ frame_addr. done (some (add_usize frame_addr (page_offset virt_addr)))

-- `init_pml4_table` of kernel/src/memory/mod.rs
pub init_pml4_table : Memory → PhysicalAddress → Memory
init_pml4_table memory pml4_addr = store memory pml4_addr (zero_table (memory pml4_addr))

-- The loop of `identity_map_range`. The first argument bounds its rounds.
pub identity_map_pages : ℕ → PageMapper → PhysicalAddress → PhysicalAddress → ℕ → Action (Unit {0})
identity_map_pages zero mapper current end_aligned flags m = done (ok tt, m)
identity_map_pages (suc left) mapper current end_aligned flags m =
    if ltb current end_aligned
    then (map_page mapper current current flags m >>= λ r.
        and_then r
          λ _ m'. identity_map_pages left mapper (add_usize current page_size) end_aligned flags m')
    else done (ok tt, m)

pub identity_map_range : PageMapper → PhysicalAddress → ℕ → ℕ → Action (Unit {0})
identity_map_range mapper start size flags m =
    let start_aligned = align_down start page_size in
    let end_aligned = align_up (add_usize start size) page_size in
    let rounds = (end_aligned - start_aligned) / page_size in
    identity_map_pages rounds mapper start_aligned end_aligned flags m
