-- ===== src/Drivers/Pci/Bars.antt =====
-- `PciDevice::get_bar_type` of kernel/src/drivers/pci/mod.rs and the encoding that it decodes.
use aetherion_os.Base.{
  ℕ, ◌+◌, ◌*◌, ◌/◌, ◌-◌, ◌%◌, ◌^◌, ◌<◌, ◌≤◌, ◌≡◌, ap, ◌∙◌, ◌==◌, ◌!=◌, if◌then◌else◌, Bool, true,
  false, Option, none, some, arith, bit_and, List, [], ◌∷◌, get_elem?, zero, suc, refl,
}
use aetherion_os.Base.Bits.{bit_and-low, bit_and-high, bit_and-round}
use aetherion_os.Base.Word.{u32_mod}
use aetherion_os.Drivers.Pci.Device.{
  PciDevice, BarType, io_space, memory_space, MemoryType, bit32, bit64, bar_type, memory_bar,
  get_bar_type,
}

-- A register in the format of the bus: bit 0 tells I/O from memory, bits 1 and 2 the memory type,
-- bit 3 whether it is prefetchable, and the bits above those hold the address.
abbrev pub type_bits : MemoryType → ℕ
type_bits bit32 = 0
type_bits bit64 = 4

abbrev pub prefetch_bit : Bool → ℕ
prefetch_bit true = 8
prefetch_bit false = 0

abbrev pub encode : BarType → ℕ
encode (io_space address) = address + 1
encode (memory_space address mem_type prefetchable) =
    address + type_bits mem_type + prefetch_bit prefetchable

-- The addresses that the format has room for, without the register 0 of an absent BAR.
abbrev pub IsBar : BarType → Type 0
IsBar (io_space address) = (address % 4 ≡ 0) × (address < u32_mod)
IsBar (memory_space address mem_type prefetchable) =
    (address % 16 ≡ 0)
    × (address < u32_mod)
    × (0 < encode (memory_space address mem_type prefetchable))

bit_3 : (bar : ℕ) → bit_and bar 0x8 ≡ bar / 8 % 2 * 8
bit_3 bar = bit_and-high 3 bar 1 ∙ ap (λ (t : ℕ). t * 8) (bit_and-low 1 (bar / 8))

-- The tests and fields of the code as arithmetic.
bar_type_lem :
    (bar : ℕ)
    → bar < u32_mod
    → bar_type bar ≡ (
        if bar == 0
        then none
        else if bar % 2 != 0
        then some (io_space (bar - bar % 4))
        else memory_bar (bar - bar % 16) (bar / 8 % 2 * 8 != 0) (bar / 2 % 4))
unfolding bar_type
bar_type_lem bar h = rw (
  bit_and-low 1 bar,
  bit_and-round 30 2 bar h,
  bit_and-round 28 4 bar h,
  bit_3 bar,
  bit_and-low 2 (bar / 2 ^ 1),
)

decode-encode : (t : BarType) → IsBar t → bar_type (encode t) ≡ some t
decode-encode (io_space address) h = ground (arith, bar_type_lem (address + 1) (omega arith))
decode-encode (memory_space address bit32 true) h =
    ground (arith, bar_type_lem (address + 0 + 8) (omega arith))
decode-encode (memory_space address bit32 false) h =
    ground (arith, bar_type_lem (address + 0 + 0) (omega arith))
decode-encode (memory_space address bit64 true) h =
    ground (arith, bar_type_lem (address + 4 + 8) (omega arith))
decode-encode (memory_space address bit64 false) h =
    ground (arith, bar_type_lem (address + 4 + 0) (omega arith))

-- The six registers, by their index.
abbrev pub registers : PciDevice → List ℕ
registers d = d.bar0 ∷ d.bar1 ∷ d.bar2 ∷ d.bar3 ∷ d.bar4 ∷ d.bar5 ∷ []

get_bar_type-registers :
    (d : PciDevice) (bar_index : ℕ)
    → get_bar_type d bar_index
      ≡ elim (get_elem? (registers d) bar_index) [ none ↦ none | some bar ↦ bar_type bar ]
unfolding get_bar_type
get_bar_type-registers d zero = refl
get_bar_type-registers d (suc zero) = refl
get_bar_type-registers d (suc (suc zero)) = refl
get_bar_type-registers d (suc (suc (suc zero))) = refl
get_bar_type-registers d (suc (suc (suc (suc zero)))) = refl
get_bar_type-registers d (suc (suc (suc (suc (suc zero))))) = refl
get_bar_type-registers d (suc (suc (suc (suc (suc (suc n)))))) = ground arith

get_bar_type-some :
    (d : PciDevice) (bar_index bar : ℕ)
    → get_elem? (registers d) bar_index ≡ some bar
    → get_bar_type d bar_index ≡ bar_type bar
get_bar_type-some d bar_index bar e =
    get_bar_type-registers d bar_index
    ∙ ap (λ (o : Option ℕ). elim o [ none ↦ none | some b ↦ bar_type b ]) e

pub record Decodes (d : PciDevice) (bar_index : ℕ) : Type 0 where
  pub valid :
      (t : BarType)
      → IsBar t
      → get_elem? (registers d) bar_index ≡ some (encode t)
      → get_bar_type d bar_index ≡ some t
  pub outside : 6 ≤ bar_index → get_bar_type d bar_index ≡ none
  pub empty : get_elem? (registers d) bar_index ≡ some 0 → get_bar_type d bar_index ≡ none
  pub reserved :
      (bar : ℕ)
      → bar < u32_mod
      → bar % 2 ≡ 0
      → bar / 2 % 2 ≡ 1
      → get_elem? (registers d) bar_index ≡ some bar
      → get_bar_type d bar_index ≡ none

-- For an index from 0 to 5, get_bar_type decodes the register of that number: if it encodes an I/O
-- or a memory space, to that space, and to none if it is 0 or has a reserved memory type; an index
-- of 6 or more gives none.
pub get_bar_type-Decodes : (d : PciDevice) (bar_index : ℕ) → Decodes d bar_index
unfolding get_bar_type
get_bar_type-Decodes d bar_index = record {
  valid = λ t h e. get_bar_type-some d bar_index (encode t) e ∙ decode-encode t h;
  outside = λ h. ground arith;
  empty = λ e. get_bar_type-some d bar_index 0 e ∙ bar_type_lem 0 (omega arith);
  reserved =
      λ bar h even type e. get_bar_type-some d bar_index bar e ∙ ground (arith, bar_type_lem bar h);
}
