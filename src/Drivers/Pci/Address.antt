-- ===== src/Drivers/Pci/Address.antt =====
-- What the configuration address and the merged value of a write are as numbers.
use aetherion_os.Base.{
  ℕ, ◌+◌, ◌-◌, ◌*◌, ◌/◌, ◌%◌, ◌^◌, ◌<◌, zero, suc, ◌≡◌, refl, ap, ◌∙◌, bit_and, bit_or, arith,
}
use mathlib.Core.Path.{subst}
use native.Mathlib.Nat.{mod-lt, one-le-pow}
use aetherion_os.Base.Bits.{
  bit_and-low, bit_and-high, bit_and-round, bit_or_disjoint, fill_hole, bit_or_below, bit_and_below,
}
use aetherion_os.Base.Word.{u32_mod, shl_u32, not_u32}
use aetherion_os.Drivers.Pci.Config.{pci_address, merge}

-- `offset & 0xFC` and `offset & 3` on a byte.
pub dword_offset : (offset : ℕ) → offset < 256 → bit_and offset 0xFC ≡ offset / 4 * 4
dword_offset offset h = omega (arith, bit_and-round 6 2 offset h)

-- `(offset & 2) * 8`
pub word_shift : (offset : ℕ) → bit_and offset 2 * 8 ≡ offset % 4 / 2 * 16
word_shift offset = omega (arith, bit_and-high 1 offset 1, bit_and-low 1 (offset / 2))

-- The address is the enable bit, the bus, the device, the function and the offset side by side.
pub pci_address_lem :
    (bus device function offset : ℕ)
    → bus < 256
    → device < 32
    → function < 8
    → offset < 256
    → pci_address bus device function offset
      ≡ 2 ^ 31 + bus * 2 ^ 16 + device * 2 ^ 11 + function * 2 ^ 8 + offset / 4 * 4
unfolding pci_address
pci_address_lem bus device function offset hb hd hf ho =
    let b : shl_u32 bus 16 ≡ bus * 2 ^ 16 = omega arith in
    let d : shl_u32 device 11 ≡ device * 2 ^ 11 = omega arith in
    let f : shl_u32 function 8 ≡ function * 2 ^ 8 = omega arith in
    let e₁ : bit_or (shl_u32 1 31) (bus * 2 ^ 16) ≡ (2 ^ 15 + bus) * 2 ^ 16 =
      bit_or_disjoint 31 1 (bus * 2 ^ 16) (omega arith) ∙ omega arith in
    let e₂ : bit_or ((2 ^ 15 + bus) * 2 ^ 16) (device * 2 ^ 11)
        ≡ (2 ^ 20 + bus * 2 ^ 5 + device) * 2 ^ 11 =
      bit_or_disjoint 16 (2 ^ 15 + bus) (device * 2 ^ 11) (omega arith) ∙ omega arith in
    let e₃ : bit_or ((2 ^ 20 + bus * 2 ^ 5 + device) * 2 ^ 11) (function * 2 ^ 8)
        ≡ (2 ^ 23 + bus * 2 ^ 8 + device * 2 ^ 3 + function) * 2 ^ 8 =
      bit_or_disjoint 11 (2 ^ 20 + bus * 2 ^ 5 + device) (function * 2 ^ 8) (omega arith)
      ∙ omega arith in
    let e₄ : bit_or ((2 ^ 23 + bus * 2 ^ 8 + device * 2 ^ 3 + function) * 2 ^ 8) (offset / 4 * 4)
        ≡ (2 ^ 23 + bus * 2 ^ 8 + device * 2 ^ 3 + function) * 2 ^ 8 + offset / 4 * 4 =
      bit_or_disjoint 8 (2 ^ 23 + bus * 2 ^ 8 + device * 2 ^ 3 + function) (offset / 4 * 4)
        (omega arith) in
    rw (b, d, f, dword_offset offset ho, e₁, e₂, e₃, e₄) (omega arith)

-- Two addresses agree only if they mean the same dword of the same function.
pub pci_address_injective :
    (bus device function offset bus' device' function' offset' : ℕ)
    → bus < 256
    → device < 32
    → function < 8
    → offset < 256
    → bus' < 256
    → device' < 32
    → function' < 8
    → offset' < 256
    → pci_address bus device function offset ≡ pci_address bus' device' function' offset'
    → (bus ≡ bus') × (device ≡ device') × (function ≡ function') × (offset / 4 ≡ offset' / 4)
pci_address_injective bus device function offset bus' device' function' offset' hb hd hf ho hb' hd'
      hf' ho' e =
    omega (
      arith,
      pci_address_lem bus device function offset hb hd hf ho,
      pci_address_lem bus' device' function' offset' hb' hd' hf' ho',
    )

-- The field of `n` bits at bit `shift` holds `value`, and the bits around it are those of `old`.
pub record IsMerged (n shift old value merged : ℕ) : Type 0 where
  pub above : merged / 2 ^ shift / 2 ^ n ≡ old / 2 ^ shift / 2 ^ n
  pub field : merged / 2 ^ shift % 2 ^ n ≡ value
  pub below : merged % 2 ^ shift ≡ old % 2 ^ shift
  pub fits : merged < u32_mod

divide : (d q r : ℕ) → r < d → ((q * d + r) / d ≡ q) × ((q * d + r) % d ≡ r)
divide d q r h = grind arith

-- The mask has a hole of `n` bits at `shift`, with `r` bits above it.
merge-IsMerged :
    (r n shift old value : ℕ)
    → not_u32 (shl_u32 (2 ^ n - 1) shift) ≡ (2 ^ (r + n) - 2 ^ n) * 2 ^ shift + (2 ^ shift - 1)
    → shl_u32 value shift ≡ value * 2 ^ shift
    → old < u32_mod
    → old / 2 ^ shift < 2 ^ (r + n)
    → value < 2 ^ n
    → IsMerged n shift old value (merge (2 ^ n - 1) shift old value)
merge-IsMerged r n shift old value mask shifted fits ho hv =
    let bound =
      bit_or_below 32 _ _ (bit_and_below 32 old (not_u32 (shl_u32 (2 ^ n - 1) shift)) fits)
        (mod-lt (value * 2 ^ shift) (omega arith)) in
    let q = old / 2 ^ shift / 2 ^ n * 2 ^ n + value in
    let low =
      divide (2 ^ shift) q (old % 2 ^ shift) (mod-lt old (one-le-pow shift 2 (omega arith))) in
    let high = divide (2 ^ n) (old / 2 ^ shift / 2 ^ n) value hv in
    let merged : merge (2 ^ n - 1) shift old value ≡ q * 2 ^ shift + old % 2 ^ shift =
      rw (mask, shifted) (fill_hole r n shift old value ho hv) in
    rw merged (record {
      above = ap (λ (t : ℕ). t / 2 ^ n) low.0 ∙ high.0;
      field = ap (λ (t : ℕ). t % 2 ^ n) low.0 ∙ high.1;
      below = low.1;
      fits = subst (λ (t : ℕ). t < u32_mod) merged bound;
    })

-- The byte and the word that a write replaces in its dword.
pub merge_byte :
    (lane old value : ℕ)
    → lane < 4
    → old < u32_mod
    → value < 256
    → IsMerged 8 (lane * 8) old value (merge 0xFF (lane * 8) old value)
merge_byte zero old value h ho hv =
    merge-IsMerged 24 8 0 old value refl (omega arith) ho (omega arith) hv
merge_byte (suc zero) old value h ho hv =
    merge-IsMerged 16 8 8 old value refl (omega arith) ho (omega arith) hv
merge_byte (suc (suc zero)) old value h ho hv =
    merge-IsMerged 8 8 16 old value refl (omega arith) ho (omega arith) hv
merge_byte (suc (suc (suc zero))) old value h ho hv =
    merge-IsMerged 0 8 24 old value refl (omega arith) ho (omega arith) hv
merge_byte (suc (suc (suc (suc lane)))) old value h ho hv = absurd (omega arith)

pub merge_word :
    (half old value : ℕ)
    → half < 2
    → old < u32_mod
    → value < 2 ^ 16
    → IsMerged 16 (half * 16) old value (merge 0xFFFF (half * 16) old value)
merge_word zero old value h ho hv =
    merge-IsMerged 16 16 0 old value refl (omega arith) ho (omega arith) hv
merge_word (suc zero) old value h ho hv =
    merge-IsMerged 0 16 16 old value refl (omega arith) ho (omega arith) hv
merge_word (suc (suc half)) old value h ho hv = absurd (omega arith)
