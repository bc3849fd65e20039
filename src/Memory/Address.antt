-- ===== src/Memory/Address.antt =====
-- kernel/src/memory/mod.rs: the page size, and the newtypes `PhysicalAddress` and
-- `VirtualAddress`, which are their `usize` here. `new` and `as_usize` are the identity.
use aetherion_os.Base.{ℕ, ◌+◌, ◌-◌, ◌*◌, ◌/◌, ◌%◌, ◌^◌, ◌<◌, ◌≡◌, refl, Bool, bit_and, ◌==◌, arith}
use aetherion_os.Base.Word.{usize_mod, add_usize}
use aetherion_os.Base.Align
use aetherion_os.Base.Align.{IsAlign}
use aetherion_os.Base.Bits.{bit_and-low}

abbrev pub page_size : ℕ
page_size = 4096

abbrev pub frame_size : ℕ
frame_size = 4096

abbrev pub PhysicalAddress : Type 0
PhysicalAddress = ℕ

abbrev pub VirtualAddress : Type 0
VirtualAddress = ℕ

-- The methods that both newtypes have.
unfoldable pub align_down : ℕ → ℕ → ℕ
align_down addr align = Align.align_down addr align

unfoldable pub align_up : ℕ → ℕ → ℕ
align_up addr align = Align.align_up addr align

unfoldable pub is_aligned : ℕ → ℕ → Bool
is_aligned addr align = addr % align == 0

unfoldable pub offset : ℕ → ℕ → ℕ
offset addr by = add_usize addr by

-- `(self.0 >> 39) & 0x1FF` and so on
unfoldable pub pml4_index : VirtualAddress → ℕ
pml4_index v = bit_and (v / 2 ^ 39) 0x1FF

unfoldable pub pdpt_index : VirtualAddress → ℕ
pdpt_index v = bit_and (v / 2 ^ 30) 0x1FF

unfoldable pub pd_index : VirtualAddress → ℕ
pd_index v = bit_and (v / 2 ^ 21) 0x1FF

unfoldable pub pt_index : VirtualAddress → ℕ
pt_index v = bit_and (v / 2 ^ 12) 0x1FF

unfoldable pub page_offset : VirtualAddress → ℕ
page_offset v = bit_and v 0xFFF

pub page-IsAlign : IsAlign page_size
page-IsAlign = record { log = 12; small = omega arith; pow = refl }

-- Rounding down to a page and testing for a page boundary agree with division.
pub align_down_page : (x : ℕ) → x < usize_mod → align_down x page_size ≡ x - x % 4096
unfolding align_down
align_down_page x h = Align.align_down_lem x page-IsAlign h

-- The four indices and the offset of a virtual address, as arithmetic.
pub indices :
    (v : VirtualAddress)
    → (pml4_index v ≡ v / 2 ^ 39 % 512)
      × (pdpt_index v ≡ v / 2 ^ 30 % 512)
      × (pd_index v ≡ v / 2 ^ 21 % 512)
      × (pt_index v ≡ v / 2 ^ 12 % 512)
      × (page_offset v ≡ v % 4096)
unfolding pml4_index pdpt_index pd_index pt_index page_offset
indices v = (
  bit_and-low 9 (v / 2 ^ 39),
  bit_and-low 9 (v / 2 ^ 30),
  bit_and-low 9 (v / 2 ^ 21),
  bit_and-low 9 (v / 2 ^ 12),
  bit_and-low 12 v,
)

-- The four table indices and the page offset of a virtual address make up its low 48 bits.
pub parts_compose :
    (v : VirtualAddress)
    → pml4_index v * 2 ^ 39
        + pdpt_index v * 2 ^ 30
        + pd_index v * 2 ^ 21
        + pt_index v * 2 ^ 12
        + page_offset v
      ≡ v % 2 ^ 48
parts_compose v = omega (arith, indices v)
