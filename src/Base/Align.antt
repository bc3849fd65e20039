-- ===== src/Base/Align.antt =====
-- Rounding an address to a power of two, as `PhysicalAddress::align_down` and `align_up`
-- (kernel/src/memory/mod.rs) and the two private `align_up` of kernel/src/allocator compute it.
use Prim.Native.Nat.{ℕ, ◌+◌, ◌-◌, ◌*◌, ◌/◌, ◌%◌, ◌^◌, ◌≤◌, ◌<◌, bit_and}
use mathlib.Core.Path.{◌≡◌, ap}
use native.Mathlib.Nat.{
  pow-le-pow_right, one-le-pow, mod-lt, mod-eq_of_lt, mul-mod_left, div-add-mod',
}
use native.Mathlib.Omega.{arith}
use native.Mathlib.Decide.{dec_le}
use aetherion_os.Base.Word.{usize_mod, add_usize, sub_usize, not_usize}
use aetherion_os.Base.Bits.{bit_and-round}

-- `addr & !(align - 1)`
unfoldable pub align_down : ℕ → ℕ → ℕ
align_down addr align = bit_and addr (not_usize (sub_usize align 1))

-- `(addr + align - 1) & !(align - 1)`
unfoldable pub align_up : ℕ → ℕ → ℕ
align_up addr align = bit_and (sub_usize (add_usize addr align) 1) (not_usize (sub_usize align 1))

-- The alignments that `Layout` admits and the page size: powers of two that fit a `usize`.
pub record IsAlign (align : ℕ) : Type 0 where
  pub log : ℕ
  pub small : log ≤ 63
  pub pow : align ≡ 2 ^ log

two-pow-le : (k : ℕ) → k ≤ 63 → 2 ^ k ≤ 2 ^ 63
two-pow-le k h = pow-le-pow_right {n = 2} (omega arith) h

pub IsAlign-pos : {align : ℕ} → IsAlign align → (0 < align) × (align ≤ 2 ^ 63)
IsAlign-pos a = omega (arith, two-pow-le a.log a.small, one-le-pow a.log 2 (omega arith), a.pow)

mask_value : {align : ℕ} → IsAlign align → not_usize (sub_usize align 1) ≡ usize_mod - align
mask_value a = omega (arith, IsAlign-pos a)

split_width : (k : ℕ) → k ≤ 63 → 2 ^ (64 - k + k) ≡ usize_mod
split_width k h = let e : 64 - k + k ≡ 64 = omega arith in ap (λ (t : ℕ). 2 ^ t) e

round_pow : (k x : ℕ) → k ≤ 63 → x < usize_mod → bit_and x (usize_mod - 2 ^ k) ≡ x - x % 2 ^ k
round_pow k x h hx = rw (← split_width k h) (bit_and-round (64 - k) k x (rw (split_width k h) hx))

and_mask :
    (align x : ℕ)
    → IsAlign align
    → x < usize_mod
    → bit_and x (not_usize (sub_usize align 1)) ≡ x - x % align
and_mask align x a h = rw (mask_value a, a.pow) (round_pow a.log x a.small h)

-- Rounding down gives a multiple.
round-multiple : (n x : ℕ) → (x - x % n) % n ≡ 0
round-multiple n x =
    let e : x - x % n ≡ x / n * n = omega (arith, div-add-mod' x n) in rw e (mul-mod_left (x / n) n)

pub align_down_lem :
    {align : ℕ} (x : ℕ) → IsAlign align → x < usize_mod → align_down x align ≡ x - x % align
unfolding align_down
align_down_lem {align} x a h = and_mask align x a h

-- Without a wrap the result is the least multiple of `align` that is at least `x`.
pub align_up_lem :
    {align : ℕ} (x : ℕ)
    → IsAlign align
    → x + align ≤ usize_mod
    → (x ≤ align_up x align) × (align_up x align < x + align) × (align_up x align % align ≡ 0)
unfolding align_up
align_up_lem {align} x a h =
    let pos = IsAlign-pos a in
    let y : sub_usize (add_usize x align) 1 ≡ x + align - 1 = omega arith in
    rw (y, and_mask align (x + align - 1) a (omega arith))
      (
        omega (arith, mod-lt (x + align - 1) pos.0),
        omega arith,
        round-multiple align (x + align - 1),
      )

-- With a wrap the result is 0.
pub align_up_wrap :
    {align : ℕ} (x : ℕ)
    → IsAlign align
    → x < usize_mod
    → usize_mod < x + align
    → align_up x align ≡ 0
unfolding align_up
align_up_wrap {align} x a hx h =
    let pos = IsAlign-pos a in
    let y : sub_usize (add_usize x align) 1 ≡ x + align - 1 - usize_mod = omega arith in
    rw (y, and_mask align (x + align - 1 - usize_mod) a (omega arith))
      (omega (arith, mod-eq_of_lt {n = x + align - 1 - usize_mod} {m = align} (omega arith)))

scaled_le : (a x y : ℕ) → x ≤ y → x * a ≤ y * a
scaled_le a x y h = grind arith

-- Two different multiples lie at least `align` apart, so the one that `align_up` gives is the least.
pub multiples_apart : (align p q : ℕ) → p % align ≡ 0 → q % align ≡ 0 → q < p → q + align ≤ p
multiples_apart align p q hp hq lt = elim (dec_le (p / align) (q / align)) [
  | yes h ↦ absurd (
      omega (
        arith,
        scaled_le align (p / align) (q / align) h,
        div-add-mod' p align,
        div-add-mod' q align,
      ))
  | no h ↦ omega (
    arith,
    scaled_le align (q / align + 1) (p / align) (omega arith),
    div-add-mod' p align,
    div-add-mod' q align,
  )
]
