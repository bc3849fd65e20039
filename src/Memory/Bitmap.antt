-- ===== src/Memory/Bitmap.antt =====
-- kernel/src/memory/bitmap.rs: the bitmap over a byte buffer, one bit for each frame. A read or
-- write past the buffer panics; `new` does not compare the buffer with the number of bits.
pub mod Bytes
pub mod View
pub mod Update
pub mod First
pub mod Consecutive
pub mod Counting
mod Tests
use aetherion_os.Base.{
  ℕ, zero, suc, ◌+◌, ◌-◌, ◌*◌, ◌/◌, ◌%◌, ◌^◌, Bool, true, false, not, Option, none, some, List, [],
  ◌∷◌, map, bit_and, bit_or, ltb, leb, ◌==◌, ◌!=◌, if◌then◌else◌, Run, done, panic, ◌>>=◌, at,
  set as set_elem,
}
use aetherion_os.Base.Word.{not_u8, sub_usize}

-- `data` is a reserved word here.
pub record Bitmap : Type 0 where
  pub bytes : List ℕ
  pub size : ℕ

unfoldable pub new : List ℕ → ℕ → Bitmap
new bytes size = record { bytes = map (λ _. 0) bytes; size = size }

-- `self.data[byte_idx] = f(self.data[byte_idx])`
unfoldable pub update_byte : Bitmap → ℕ → (ℕ → ℕ) → Run Bitmap
update_byte b byte_idx f = do
  byte ← at b.bytes byte_idx
  done (record b { bytes = set_elem b.bytes byte_idx (f byte) })

unfoldable pub set : Bitmap → ℕ → Run Bitmap
set b index =
    if ltb index b.size
    then update_byte b (index / 8) (λ byte. bit_or byte (2 ^ (index % 8)))
    else done b

unfoldable pub clear : Bitmap → ℕ → Run Bitmap
clear b index =
    if ltb index b.size
    then update_byte b (index / 8) (λ byte. bit_and byte (not_u8 (2 ^ (index % 8))))
    else done b

abbrev pub test_bit : ℕ → ℕ → Bool
test_bit byte bit_idx = bit_and byte (2 ^ bit_idx) != 0

unfoldable pub is_set : Bitmap → ℕ → Run Bool
is_set b index =
    if leb b.size index
    then done false
    else do byte ← at b.bytes (index / 8); done (test_bit byte (index % 8))

-- How a loop body ends: the function returns, or the loop goes on.
pub data Flow (A : Type 0) : Type 0 where
  return : A → Flow A
  next : Flow A

-- The inner loop of `find_first_clear`, with the number of rounds left.
unfoldable pub scan_byte : Bitmap → ℕ → ℕ → ℕ → Run (Flow (Option ℕ))
scan_byte b byte_idx zero bit_idx = done next
scan_byte b byte_idx (suc left) bit_idx =
    let index = byte_idx * 8 + bit_idx in
    let rest = scan_byte b byte_idx left (bit_idx + 1) in
    if leb b.size index
    then done (return none)
    else do taken ← is_set b index; if not taken then done (return (some index)) else rest

-- The outer loop, over the bytes from `byte_idx` on.
unfoldable pub scan_bytes : Bitmap → List ℕ → ℕ → Run (Option ℕ)
scan_bytes b [] byte_idx = done none
scan_bytes b (byte ∷ bytes) byte_idx =
    let rest = scan_bytes b bytes (byte_idx + 1) in
    if byte != 0xFF
    then scan_byte b byte_idx 8 0 >>= (λ r. elim r [ return found ↦ done found | next ↦ rest ])
    else rest

unfoldable pub find_first_clear : Bitmap → Run (Option ℕ)
find_first_clear b = scan_bytes b b.bytes 0

-- The loop of `find_consecutive_clear` at index `idx`, with the number of rounds left.
unfoldable pub scan_run : Bitmap → ℕ → ℕ → ℕ → ℕ → ℕ → Run (Option ℕ)
scan_run b count zero idx consecutive start_idx = done none
scan_run b count (suc left) idx consecutive start_idx = do
  taken ← is_set b idx
  let start' = if consecutive == 0 then idx else start_idx
  let longer = scan_run b count left (idx + 1) (consecutive + 1) start'
  let broken = scan_run b count left (idx + 1) 0 start_idx
  if not taken then (if consecutive + 1 == count then done (some start') else longer) else broken

unfoldable pub find_consecutive_clear : Bitmap → ℕ → Run (Option ℕ)
find_consecutive_clear b count = if count == 0 then done none else scan_run b count b.size 0 0 0

unfoldable pub count_from : Bitmap → ℕ → ℕ → ℕ → Run ℕ
count_from b zero idx count = done count
count_from b (suc left) idx count = do
  taken ← is_set b idx
  count_from b left (idx + 1) (if not taken then count + 1 else count)

unfoldable pub count_free : Bitmap → Run ℕ
count_free b = count_from b b.size 0 0

unfoldable pub count_allocated : Bitmap → Run ℕ
count_allocated b = do free ← count_free b; done (sub_usize b.size free)
