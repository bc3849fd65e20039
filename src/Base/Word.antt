-- ===== src/Base/Word.antt =====
-- `usize` and `u64` arithmetic of the release build, which wraps, and the alignment helpers that
-- kernel/src/memory/mod.rs, allocator/bump.rs and allocator/linked_list.rs each write out.
use Prim.Native.Nat.{ℕ, ◌+◌, ◌-◌, ◌*◌, ◌%◌, ◌^◌}

abbrev pub usize_mod : ℕ
usize_mod = 2 ^ 64

abbrev pub add_usize : ℕ → ℕ → ℕ
add_usize a b = (a + b) % usize_mod

-- `-` on ℕ stops at 0, so the modulus is added first.
abbrev pub sub_usize : ℕ → ℕ → ℕ
sub_usize a b = (a + usize_mod - b) % usize_mod

abbrev pub mul_usize : ℕ → ℕ → ℕ
mul_usize a b = a * b % usize_mod

-- `!x` on 64 and on 8 bits
abbrev pub not_usize : ℕ → ℕ
not_usize x = usize_mod - 1 - x

abbrev pub not_u8 : ℕ → ℕ
not_u8 x = 255 - x

-- `x << k` and `!x` on 32 bits
abbrev pub u32_mod : ℕ
u32_mod = 2 ^ 32

abbrev pub shl_u32 : ℕ → ℕ → ℕ
shl_u32 x k = x * 2 ^ k % u32_mod

abbrev pub not_u32 : ℕ → ℕ
not_u32 x = u32_mod - 1 - x
