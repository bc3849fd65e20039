-- ===== src/Memory/PageTable/Bits.antt =====
-- `&` and `|` bit by bit, as kernel/src/memory/page_table.rs uses them on entries.
use aetherion_os.Base.{
  ℕ, zero, suc, ◌+◌, ◌-◌, ◌*◌, ◌/◌, ◌%◌, ◌^◌, ◌≤◌, ◌<◌, min, max, ◌≡◌, refl, bit_and, bit_or, arith,
  ap, sym, ◌∙◌, ◌!=◌, ◌==◌, if◌then◌else◌,
}
use native.Mathlib.Nat.{pow-suc, one-le-pow, zero-div, div-div-eq-div-mul}
use aetherion_os.Base.Word.{not_usize, usize_mod}
use aetherion_os.Base.Bits.{
  bit_and_step, bit_or_step, bit_and-high, bit_and-low, bit_or_fields, bit_or-zero, zero-bit_or,
}
use aetherion_os.Memory.PageTable.{PageTableFlags, bit_of, has, set_address, addr_mask}

-- The digit of `x` at `2 ^ k`.
abbrev pub digit : ℕ → ℕ → ℕ
digit k x = x / 2 ^ k % 2

half_power : (x k : ℕ) → x / 2 ^ suc k ≡ x / 2 / 2 ^ k
half_power x k =
    ap (λ (t : ℕ). x / t) (omega (arith, pow-suc 2 k)) ∙ sym (div-div-eq-div-mul x 2 (2 ^ k))

pub digit-bit_or : (k x y : ℕ) → digit k (bit_or x y) ≡ max (digit k x) (digit k y)
digit-bit_or zero x y = omega (arith, bit_or_step x y)
digit-bit_or (suc k) x y =
    let half : bit_or x y / 2 ≡ bit_or (x / 2) (y / 2) = omega (arith, bit_or_step x y) in
    rw (half_power (bit_or x y) k, half_power x k, half_power y k, half)
      (digit-bit_or k (x / 2) (y / 2))

pub digit-bit_and : (k x y : ℕ) → digit k (bit_and x y) ≡ min (digit k x) (digit k y)
digit-bit_and zero x y = omega (arith, bit_and_step x y)
digit-bit_and (suc k) x y =
    let half : bit_and x y / 2 ≡ bit_and (x / 2) (y / 2) = omega (arith, bit_and_step x y) in
    rw (half_power (bit_and x y) k, half_power x k, half_power y k, half)
      (digit-bit_and k (x / 2) (y / 2))

one_bit : (k e : ℕ) → bit_and e (2 ^ k) ≡ digit k e * 2 ^ k
one_bit k e =
    ap (bit_and e) (omega arith)
    ∙ bit_and-high k e 1
    ∙ ap (λ (t : ℕ). t * 2 ^ k) (bit_and-low 1 (e / 2 ^ k))

scaled_nonzero : (d p : ℕ) → d < 2 → 1 ≤ p → (d * p != 0) ≡ (d != 0)
scaled_nonzero zero p h pos = ground arith
scaled_nonzero (suc zero) p h pos = ground arith
scaled_nonzero (suc (suc d)) p h pos = absurd (omega arith)

pub has_lem : (e : ℕ) (f : PageTableFlags) → has e f ≡ (digit (bit_of f) e != 0)
unfolding has
has_lem e f = rw (one_bit (bit_of f) e) (
    scaled_nonzero (digit (bit_of f) e) (2 ^ bit_of f) (omega arith)
      (one-le-pow (bit_of f) 2 (omega arith)))

-- Bits 12 to 51 of an address.
abbrev pub address_field : ℕ → ℕ
address_field x = x / 2 ^ 12 % 2 ^ 40 * 2 ^ 12

pub mask_lem : (x : ℕ) → bit_and x addr_mask ≡ address_field x
mask_lem x =
    bit_and-high 12 x (2 ^ 40 - 1) ∙ ap (λ (t : ℕ). t * 2 ^ 12) (bit_and-low 40 (x / 2 ^ 12))

-- Flags of a page: no bit of the address.
pub record IsFlags (f : ℕ) : Type 0 where
  pub low : f % 2 ^ 52 < 2 ^ 12
  pub bound : f < 2 ^ 64

pub set_address_lem : (e addr f : ℕ) → IsFlags f → set_address e addr f ≡ address_field addr + f
unfolding set_address
set_address_lem e addr f h =
    let a = addr / 2 ^ 12 % 2 ^ 40 in
    let hi = f / 2 ^ 52 in
    let lo = f % 2 ^ 52 in
    let split : f ≡ hi * 2 ^ 52 + lo = omega arith in
    let upper = bit_or_fields 52 0 (a * 2 ^ 12) hi lo (omega arith) (omega arith) in
    let lower = bit_or_fields 12 a 0 0 lo (omega arith) (omega (arith, h.low)) in
    let lower' : bit_or (a * 2 ^ 12) lo ≡ a * 2 ^ 12 + lo =
      ap (λ (t : ℕ). bit_or t lo) (omega arith)
      ∙ ap (bit_or (a * 2 ^ 12 + 0)) (omega arith)
      ∙ lower
      ∙ omega (arith, bit_or-zero a, zero-bit_or lo) in
    rw (mask_lem addr) (
      ap (λ (t : ℕ). bit_or t f) (omega arith)
      ∙ ap (bit_or (0 * 2 ^ 52 + a * 2 ^ 12)) split
      ∙ upper
      ∙ omega (arith, lower', split, zero-bit_or hi))

pub digit-power : (j k : ℕ) → digit j (2 ^ k) ≡ (if j == k then 1 else 0)
digit-power zero zero = refl
digit-power zero (suc k) = ground (arith, pow-suc 2 k)
digit-power (suc j) zero = ap (λ (t : ℕ). t % 2) (half_power 1 j) ∙ ground (arith, zero-div (2 ^ j))
digit-power (suc j) (suc k) =
    let half : 2 ^ suc k / 2 ≡ 2 ^ k = omega (arith, pow-suc 2 k) in
    rw (half_power (2 ^ suc k) j, half, digit-power j k) (ground arith)

-- The complement on `n` bits turns every digit below `n` around.
digit-complement : (j n x : ℕ) → j < n → x < 2 ^ n → digit j (2 ^ n - 1 - x) ≡ 1 - digit j x
digit-complement j zero x h b = absurd (omega arith)
digit-complement zero (suc n) x h b = omega (arith, pow-suc 2 n)
digit-complement (suc j) (suc n) x h b =
    let half : (2 ^ suc n - 1 - x) / 2 ≡ 2 ^ n - 1 - x / 2 = omega (arith, pow-suc 2 n) in
    rw (half_power (2 ^ suc n - 1 - x) j, half_power x j, half)
      (digit-complement j n (x / 2) (omega arith) (omega (arith, pow-suc 2 n)))

pub digit-not_usize : (j x : ℕ) → j < 64 → x < usize_mod → digit j (not_usize x) ≡ 1 - digit j x
digit-not_usize j x h b = digit-complement j 64 x h b
