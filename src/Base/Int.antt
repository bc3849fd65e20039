-- ===== src/Base/Int.antt =====
-- Signed integers over the native numbers, under the library's names, for `i8` and `i16`. Sums and
-- orders go through the two parts of an integer, which are numbers that `omega` reads.
use Prim.Native.Nat.{ℕ, suc, ◌+◌, ◌-◌, ◌≤◌}
use mathlib.Core.Path.{◌≡◌}
use mathlib.Core.Bool.{Bool}
use native.Mathlib.Omega.{arith}
use aetherion_os.Base.Tests.{ltb, leb, if◌then◌else◌}

-- `negsuc n` is -(n + 1).
pub data ℤ : Type 0 where
  pos : ℕ → ℤ
  negsuc : ℕ → ℤ

abbrev pub pos_part : ℤ → ℕ
pos_part (pos n) = n
pos_part (negsuc n) = 0

abbrev pub neg_part : ℤ → ℕ
neg_part (pos n) = 0
neg_part (negsuc n) = suc n

-- a - b, as an integer.
abbrev pub sub_ℕ : ℕ → ℕ → ℤ
sub_ℕ a b = if leb b a then pos (a - b) else negsuc (b - a - 1)

infixl 65 ◌+ℤ◌
infix 50 ◌≤ℤ◌
unfoldable pub ◌+ℤ◌ : ℤ → ℤ → ℤ
a +ℤ b = sub_ℕ (pos_part a + pos_part b) (neg_part a + neg_part b)

abbrev pub ◌≤ℤ◌ : ℤ → ℤ → Type 0
a ≤ℤ b = pos_part a + neg_part b ≤ pos_part b + neg_part a

abbrev pub ltb_ℤ : ℤ → ℤ → Bool
ltb_ℤ a b = ltb (pos_part a + neg_part b) (pos_part b + neg_part a)

-- A byte read as an `i8`.
unfoldable pub as_i8 : ℕ → ℤ
as_i8 b = if ltb b 128 then pos b else negsuc (255 - b)

-- The least and the greatest `i16`.
abbrev pub i16_min : ℤ
i16_min = negsuc 32767

abbrev pub i16_max : ℤ
i16_max = pos 32767

abbrev pub IsI16 : ℤ → Type 0
IsI16 a = (i16_min ≤ℤ a) × (a ≤ℤ i16_max)

-- `a.saturating_add(b)` of two `i16`s
unfoldable pub saturating_add : ℤ → ℤ → ℤ
unfolding ◌+ℤ◌
saturating_add a b =
    let sum = a +ℤ b in
    if ltb_ℤ sum i16_min then i16_min else if ltb_ℤ i16_max sum then i16_max else sum

pub saturating_add-IsI16 : (a b : ℤ) → IsI16 (saturating_add a b)
unfolding saturating_add
saturating_add-IsI16 a b = ground arith

pub saturating_add_exact : (a b : ℤ) → IsI16 (a +ℤ b) → saturating_add a b ≡ a +ℤ b
unfolding saturating_add
saturating_add_exact a b h = ground arith
