-- ===== src/Memory/Bitmap/Bytes.antt =====
-- The bits of one byte, checked for all bytes by evaluation.
use aetherion_os.Base.{
  ℕ, ◌^◌, ◌<◌, ◌≡◌, refl, Bool, true, false, ◌&&◌, bit_and, bit_or, ltb, ◌==◌, if◌then◌else◌, same,
  same→eq, ltb→lt, and-true,
}
use aetherion_os.Base.Word.{not_u8}
use aetherion_os.Base.Bits.{check_below, check_below-lt}
use aetherion_os.Memory.Bitmap.{test_bit}

-- `f` of a byte is a byte that differs from it in bit `i` at most, which is `v`.
abbrev reads_bit : (ℕ → ℕ → ℕ) → Bool → ℕ → ℕ → ℕ → Bool
reads_bit f v byte i j = same (test_bit (f byte i) j) (if i == j then v else test_bit byte j)

abbrev writes_bit : (ℕ → ℕ → ℕ) → Bool → ℕ → ℕ → Bool
writes_bit f v byte i = ltb (f byte i) 256 && check_below (reads_bit f v byte i) 8

abbrev all_writes : (ℕ → ℕ → ℕ) → Bool → Bool
all_writes f v = check_below (λ byte. check_below (writes_bit f v byte) 8) 256

-- What a write of `v` to bit `i` does to a byte.
pub record BitWritten (old new : ℕ) (i : ℕ) (v : Bool) : Type 0 where
  pub fits : new < 256
  pub reads : (j : ℕ) → j < 8 → test_bit new j ≡ (if i == j then v else test_bit old j)

all_writes-BitWritten :
    (f : ℕ → ℕ → ℕ) (v : Bool) (byte i : ℕ)
    → all_writes f v ≡ true
    → byte < 256
    → i < 8
    → BitWritten byte (f byte i) i v
all_writes-BitWritten f v byte i table hb hi =
    let row = check_below-lt (λ byte. check_below (writes_bit f v byte) 8) 256 hb table in
    let cell = and-true _ _ (check_below-lt (writes_bit f v byte) 8 hi row) in
    record {
      fits = ltb→lt _ _ cell.0;
      reads = λ j hj. same→eq _ _ (check_below-lt (reads_bit f v byte i) 8 hj cell.1);
    }

set_table : all_writes (λ byte i. bit_or byte (2 ^ i)) true ≡ true
set_table = refl

clear_table : all_writes (λ byte i. bit_and byte (not_u8 (2 ^ i))) false ≡ true
clear_table = refl

pub set-BitWritten :
    (byte i : ℕ) → byte < 256 → i < 8 → BitWritten byte (bit_or byte (2 ^ i)) i true
set-BitWritten byte i hb hi =
    all_writes-BitWritten (λ byte i. bit_or byte (2 ^ i)) true byte i set_table hb hi

pub clear-BitWritten :
    (byte i : ℕ) → byte < 256 → i < 8 → BitWritten byte (bit_and byte (not_u8 (2 ^ i))) i false
clear-BitWritten byte i hb hi =
    all_writes-BitWritten (λ byte i. bit_and byte (not_u8 (2 ^ i))) false byte i clear_table hb hi

full_table : check_below (test_bit 0xFF) 8 ≡ true
full_table = refl

-- The byte that the search skips has no free bit.
pub full_byte : (i : ℕ) → i < 8 → test_bit 0xFF i ≡ true
full_byte i h = check_below-lt (test_bit 0xFF) 8 h full_table

empty_table : check_below (λ i. same (test_bit 0 i) false) 8 ≡ true
empty_table = refl

pub zero_byte : (i : ℕ) → i < 8 → test_bit 0 i ≡ false
zero_byte i h = same→eq _ _ (check_below-lt (λ i. same (test_bit 0 i) false) 8 h empty_table)
