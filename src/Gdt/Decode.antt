-- ===== src/Gdt/Decode.antt =====
-- What the processor reads in the descriptors of kernel/src/gdt/mod.rs.
use aetherion_os.Base.{ℕ, ◌+◌, ◌*◌, ◌/◌, ◌%◌, ◌^◌, ◌<◌, ◌≡◌, refl, ◌∙◌, arith, bit_and, bit_or}
use aetherion_os.Base.Bits.{bit_and-low, bit_and-high, bit_or_disjoint'}
use aetherion_os.Gdt.{GdtEntry, new}

abbrev pub base_of : GdtEntry → ℕ
base_of e = e.base_low + e.base_middle * 2 ^ 16 + e.base_high * 2 ^ 24

abbrev pub limit_of : GdtEntry → ℕ
limit_of e = e.limit_low + e.granularity % 16 * 2 ^ 16

-- The upper half of the granularity byte.
abbrev pub flags_of : GdtEntry → ℕ
flags_of e = e.granularity / 16

granularity_lem :
    (limit flags : ℕ)
    → flags < 256
    → bit_or (bit_and (limit / 2 ^ 16) 0x0F) (bit_and flags 0xF0)
      ≡ flags / 16 * 16 + limit / 2 ^ 16 % 16
granularity_lem limit flags h =
    let hi : bit_and flags 0xF0 ≡ flags / 16 * 2 ^ 4 =
      bit_and-high 4 flags 15 ∙ omega (arith, bit_and-low 4 (flags / 16)) in
    rw (hi, bit_and-low 4 (limit / 2 ^ 16))
      (bit_or_disjoint' 4 (flags / 16) (limit / 2 ^ 16 % 16) (omega arith))

-- For a 32-bit base and a flags byte, a new descriptor holds the base, the low 20 bits of the
-- limit, the access byte and the upper four bits of the flags byte.
pub new-Holds :
    (base limit access flags : ℕ)
    → base < 2 ^ 32
    → flags < 256
    → (base_of (new base limit access flags) ≡ base)
      × (limit_of (new base limit access flags) ≡ limit % 2 ^ 20)
      × ((new base limit access flags).access ≡ access)
      × (flags_of (new base limit access flags) ≡ flags / 16)
unfolding new
new-Holds base limit access flags hb hf = (
  omega (arith, bit_and-low 16 base, bit_and-low 8 (base / 2 ^ 16), bit_and-low 8 (base / 2 ^ 24)),
  omega (arith, granularity_lem limit flags hf, bit_and-low 16 limit),
  refl,
  omega (arith, granularity_lem limit flags hf),
)
