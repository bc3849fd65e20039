-- ===== src/Base/Bits.antt =====
-- `&` and `|` at variables: the step on the lowest digit, masks of high and of low bits as
-- arithmetic at every width, and checks of all bytes by evaluation.
use Prim.Native.Nat.{
  ℕ, zero, suc, ◌+◌, ◌-◌, ◌*◌, ◌/◌, ◌%◌, ◌^◌, ◌≤◌, ◌<◌, min, max, bit_and, bit_or, digits,
  bit_and-bitwise, bit_or-bitwise,
}
use mathlib.Core.Path.{◌≡◌, refl, sym, ap, ap₂, ◌∙◌}
use mathlib.Core.Logic.{inl, inr}
use mathlib.Core.Bool.{Bool, true, ◌&&◌}
use native.Mathlib.Nat.{
  pow-suc, one-le-pow, add-zero, mul-one, add-suc, mul_assoc, mod-eq_of_lt, div-lt_iff_lt-mul,
  div-add-mod', mod-lt,
}
use native.Mathlib.Omega.{arith}
use aetherion_os.Base.Tests.{◌==◌, ==→eq, Bool-cases, and-true}

-- The native operations walk down the digits of their first argument with fuel. Any fuel from that
-- argument on gives one and the same value, so one digit can be split off.
module _ (rest : ℕ → ℕ) (digit : ℕ → ℕ → ℕ) where
  fuel_irrelevant :
      (x y fuel fuel' : ℕ)
      → x ≤ fuel
      → x ≤ fuel'
      → digits rest digit fuel x y ≡ digits rest digit fuel' x y
  fuel_irrelevant zero y zero zero h h' = refl
  fuel_irrelevant zero y zero (suc k') h h' = refl
  fuel_irrelevant zero y (suc k) zero h h' = refl
  fuel_irrelevant zero y (suc k) (suc k') h h' = refl
  fuel_irrelevant (suc x) y zero fuel' h h' = absurd (omega arith)
  fuel_irrelevant (suc x) y (suc k) zero h h' = absurd (omega arith)
  fuel_irrelevant (suc x) y (suc k) (suc k') h h' =
      let halves = fuel_irrelevant (suc x / 2) (y / 2) k k' (omega arith) (omega arith) in
      ap (λ (t : ℕ). t * 2 + digit (suc x % 2) (y % 2)) halves

  split_digit :
      (x y : ℕ)
      → digits rest digit (suc x) (suc x) y
        ≡ digits rest digit (suc x / 2) (suc x / 2) (y / 2) * 2 + digit (suc x % 2) (y % 2)
  split_digit x y =
      let halves = fuel_irrelevant (suc x / 2) (y / 2) x (suc x / 2) (omega arith) (omega arith) in
      ap (λ (t : ℕ). t * 2 + digit (suc x % 2) (y % 2)) halves

pub bit_and_step : (x y : ℕ) → bit_and x y ≡ bit_and (x / 2) (y / 2) * 2 + min (x % 2) (y % 2)
bit_and_step zero y = simp bit_and-bitwise (omega arith)
bit_and_step (suc x) y = simp bit_and-bitwise (split_digit (λ _. zero) min x y)

pub bit_or_step : (x y : ℕ) → bit_or x y ≡ bit_or (x / 2) (y / 2) * 2 + max (x % 2) (y % 2)
bit_or_step zero y = simp bit_or-bitwise (omega arith)
bit_or_step (suc x) y = simp bit_or-bitwise (split_digit (λ t. t) max x y)

zero_mask : (x bound : ℕ) → x ≤ bound → bit_and x 0 ≡ 0
zero_mask zero bound h = refl
zero_mask (suc x) zero h = absurd (omega arith)
zero_mask (suc x) (suc bound) h =
    let half = zero_mask (suc x / 2) bound (omega arith) in
    omega (arith, bit_and_step (suc x) 0, half)

pub bit_and-zero : (x : ℕ) → bit_and x 0 ≡ 0
bit_and-zero x = zero_mask x x (omega arith)

or_zero : (x bound : ℕ) → x ≤ bound → bit_or x 0 ≡ x
or_zero zero bound h = refl
or_zero (suc x) zero h = absurd (omega arith)
or_zero (suc x) (suc bound) h =
    let half = or_zero (suc x / 2) bound (omega arith) in omega (arith, bit_or_step (suc x) 0, half)

zero_or : (x bound : ℕ) → x ≤ bound → bit_or 0 x ≡ x
zero_or zero bound h = refl
zero_or (suc x) zero h = absurd (omega arith)
zero_or (suc x) (suc bound) h =
    let half = zero_or (suc x / 2) bound (omega arith) in omega (arith, bit_or_step 0 (suc x), half)

pub bit_or-zero : (x : ℕ) → bit_or x 0 ≡ x
bit_or-zero x = or_zero x x (omega arith)

pub zero-bit_or : (x : ℕ) → bit_or 0 x ≡ x
zero-bit_or x = zero_or x x (omega arith)

pub mul-two-pow : (q k : ℕ) → q * 2 ^ suc k ≡ 2 * (q * 2 ^ k)
mul-two-pow q k = omega (arith, ap (λ (t : ℕ). q * t) (pow-suc 2 k))

-- `&` and `|` act on the fields above and below bit `k` apart.
pub bit_and_fields :
    (k q r p s : ℕ)
    → r < 2 ^ k
    → s < 2 ^ k
    → bit_and (q * 2 ^ k + r) (p * 2 ^ k + s) ≡ bit_and q p * 2 ^ k + bit_and r s
bit_and_fields zero q zero p zero hr hs = ground (arith, bit_and-zero 0)
bit_and_fields zero q (suc r) p s hr hs = absurd (omega arith)
bit_and_fields zero q r p (suc s) hr hs = absurd (omega arith)
bit_and_fields (suc k) q r p s hr hs = ground (
  arith,
  bit_and_step (q * 2 ^ suc k + r) (p * 2 ^ suc k + s),
  bit_and_step r s,
  mul-two-pow q k,
  mul-two-pow p k,
  mul-two-pow (bit_and q p) k,
  pow-suc 2 k,
  bit_and_fields k q (r / 2) p (s / 2) (omega arith) (omega arith),
)

pub bit_or_fields :
    (k q r p s : ℕ)
    → r < 2 ^ k
    → s < 2 ^ k
    → bit_or (q * 2 ^ k + r) (p * 2 ^ k + s) ≡ bit_or q p * 2 ^ k + bit_or r s
bit_or_fields zero q zero p zero hr hs = ground arith
bit_or_fields zero q (suc r) p s hr hs = absurd (omega arith)
bit_or_fields zero q r p (suc s) hr hs = absurd (omega arith)
bit_or_fields (suc k) q r p s hr hs = ground (
  arith,
  bit_or_step (q * 2 ^ suc k + r) (p * 2 ^ suc k + s),
  bit_or_step r s,
  mul-two-pow q k,
  mul-two-pow p k,
  mul-two-pow (bit_or q p) k,
  pow-suc 2 k,
  bit_or_fields k q (r / 2) p (s / 2) (omega arith) (omega arith),
)

bit_and-low_fields : (k q r : ℕ) → r < 2 ^ k → bit_and (q * 2 ^ k + r) (2 ^ k - 1) ≡ r
bit_and-low_fields zero q r h = rw bit_and-zero (omega arith)
bit_and-low_fields (suc k) q r h = ground (
  arith,
  bit_and_step (q * 2 ^ suc k + r) (2 ^ suc k - 1),
  mul-two-pow q k,
  pow-suc 2 k,
  one-le-pow k 2,
  bit_and-low_fields k q (r / 2) (omega arith),
)

-- A mask of `k` low bits is the remainder by `2 ^ k`.
pub bit_and-low : (k a : ℕ) → bit_and a (2 ^ k - 1) ≡ a % 2 ^ k
bit_and-low k a = ground (arith, one-le-pow k 2, bit_and-low_fields k (a / 2 ^ k) (a % 2 ^ k))

pub two-pow-add : (j k : ℕ) → 2 ^ (j + k) ≡ 2 ^ j * 2 ^ k
two-pow-add j zero = simp (add-zero, mul-one)
two-pow-add j (suc k) = simp (add-suc, pow-suc, two-pow-add j k, mul_assoc)

-- A mask above `k` zeros acts on the bits from `k` on.
pub bit_and-high : (k x p : ℕ) → bit_and x (p * 2 ^ k) ≡ bit_and (x / 2 ^ k) p * 2 ^ k
bit_and-high k x p =
    ap₂ bit_and (sym (div-add-mod' x (2 ^ k))) (sym (add-zero (p * 2 ^ k)))
    ∙ bit_and_fields k (x / 2 ^ k) (x % 2 ^ k) p 0 (mod-lt x (one-le-pow k 2 (omega arith)))
        (one-le-pow k 2 (omega arith))
    ∙ omega (arith, bit_and-zero (x % 2 ^ k))

drop_one : (a b : ℕ) → 1 ≤ a → a * b - b ≡ (a - 1) * b
drop_one zero b h = absurd (omega arith)
drop_one (suc a) b h = let e : suc a - 1 ≡ a = omega arith in rw e (omega arith)

mask_round : (j k : ℕ) → 2 ^ (j + k) - 2 ^ k ≡ (2 ^ j - 1) * 2 ^ k
mask_round j k = rw (two-pow-add j k) (drop_one (2 ^ j) (2 ^ k) (one-le-pow j 2 (omega arith)))

-- A mask of `j` ones above `k` zeros rounds down to a multiple of `2 ^ k`.
pub bit_and-round : (j k x : ℕ) → x < 2 ^ (j + k) → bit_and x (2 ^ (j + k) - 2 ^ k) ≡ x - x % 2 ^ k
bit_and-round j k x h =
    let pos = one-le-pow k 2 (omega arith) in
    let below : x / 2 ^ k < 2 ^ j = (div-lt_iff_lt-mul pos).1 (omega (arith, two-pow-add j k)) in
    rw (mask_round j k, bit_and-high k x (2 ^ j - 1), bit_and-low j (x / 2 ^ k), mod-eq_of_lt below)
      (omega (arith, div-add-mod' x (2 ^ k)))

-- `p` holds at every number below `n`, by evaluation.
abbrev pub check_below : (ℕ → Bool) → ℕ → Bool
check_below p zero = true
check_below p (suc n) = check_below p n && p n

pub check_below-lt : (p : ℕ → Bool) (n : ℕ) {k : ℕ} → k < n → check_below p n ≡ true → p k ≡ true
check_below-lt p zero lt table = absurd (omega arith)
check_below-lt p (suc n) {k} lt table = elim (Bool-cases (k == n)) [
  | inl last ↦ rw (==→eq k n last) (and-true _ _ table).1
  | inr other ↦ check_below-lt p n (ground arith) (and-true _ _ table).0
]

-- A field above bit `k` joined by `|` with one below it is their sum.
pub bit_or_disjoint : (k q r : ℕ) → r < 2 ^ k → bit_or (q * 2 ^ k) r ≡ q * 2 ^ k + r
bit_or_disjoint k q r h =
    ap₂ bit_or (sym (add-zero (q * 2 ^ k))) (omega arith)
    ∙ bit_or_fields k q 0 0 r (one-le-pow k 2 (omega arith)) h
    ∙ omega (arith, ap (λ (t : ℕ). t * 2 ^ k) (bit_or-zero q), zero-bit_or r)

pub bit_or_disjoint' : (k q r : ℕ) → r < 2 ^ k → bit_or r (q * 2 ^ k) ≡ q * 2 ^ k + r
bit_or_disjoint' k q r h =
    ap₂ bit_or (omega arith) (sym (add-zero (q * 2 ^ k)))
    ∙ bit_or_fields k 0 r q 0 h (one-le-pow k 2 (omega arith))
    ∙ omega (arith, bit_or-zero r, ap (λ (t : ℕ). t * 2 ^ k) (zero-bit_or q))

-- A mask with a hole of `n` bits at `s`, filled by `v`.
pub fill_hole :
    (r n s old v : ℕ)
    → old / 2 ^ s < 2 ^ (r + n)
    → v < 2 ^ n
    → bit_or (bit_and old ((2 ^ (r + n) - 2 ^ n) * 2 ^ s + (2 ^ s - 1))) (v * 2 ^ s)
      ≡ (old / 2 ^ s / 2 ^ n * 2 ^ n + v) * 2 ^ s + old % 2 ^ s
fill_hole r n s old v ho hv =
    let S = 2 ^ s in
    let pos = one-le-pow s 2 (omega arith) in
    let A = old / S / 2 ^ n * 2 ^ n in
    let low = mod-lt old {m = S} (omega arith) in
    let masked : bit_and old ((2 ^ (r + n) - 2 ^ n) * S + (S - 1)) ≡ A * S + old % S =
      ap (λ (t : ℕ). bit_and t ((2 ^ (r + n) - 2 ^ n) * S + (S - 1))) (sym (div-add-mod' old S))
      ∙ bit_and_fields s (old / S) (old % S) (2 ^ (r + n) - 2 ^ n) (S - 1) low (omega arith)
      ∙ ap₂ ◌+◌
          (ap (λ (t : ℕ). t * S)
            (bit_and-round r n (old / S) ho ∙ omega (arith, div-add-mod' (old / S) (2 ^ n))))
          (bit_and-low s (old % S) ∙ mod-eq_of_lt low) in
    rw masked (
      ap (bit_or (A * S + old % S)) (sym (add-zero (v * S)))
      ∙ bit_or_fields s A (old % S) v 0 low (omega arith)
      ∙ ap₂ ◌+◌ (ap (λ (t : ℕ). t * S) (bit_or_disjoint n (old / S / 2 ^ n) v hv))
          (bit_or-zero (old % S)))

pub bit_or_below : (k x y : ℕ) → x < 2 ^ k → y < 2 ^ k → bit_or x y < 2 ^ k
bit_or_below zero zero zero hx hy = omega (arith, bit_or-zero 0)
bit_or_below zero (suc x) y hx hy = absurd (omega arith)
bit_or_below zero x (suc y) hx hy = absurd (omega arith)
bit_or_below (suc k) x y hx hy = omega (
  arith,
  pow-suc 2 k,
  bit_or_step x y,
  bit_or_below k (x / 2) (y / 2) (omega (arith, pow-suc 2 k)) (omega (arith, pow-suc 2 k)),
)

zero-bit_and : (y : ℕ) → bit_and 0 y ≡ 0
zero-bit_and y = simp bit_and-bitwise (omega arith)

pub bit_and_below : (k x y : ℕ) → x < 2 ^ k → bit_and x y < 2 ^ k
bit_and_below zero zero y hx = omega (arith, zero-bit_and y)
bit_and_below zero (suc x) y hx = absurd (omega arith)
bit_and_below (suc k) x y hx = omega (
  arith,
  pow-suc 2 k,
  bit_and_step x y,
  bit_and_below k (x / 2) (y / 2) (omega (arith, pow-suc 2 k)),
)
