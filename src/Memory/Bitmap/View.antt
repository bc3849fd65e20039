-- ===== src/Memory/Bitmap/View.antt =====
-- What a bitmap means: the set of the indices whose bit is 1, and when no access panics.
use aetherion_os.Base.{
  ℕ, zero, suc, ◌*◌, ◌/◌, ◌%◌, ◌≤◌, ◌<◌, ◌≡◌, refl, Bool, true, false, List, [], ◌∷◌, map, ltb,
  if◌then◌else◌, done, at_in_range, All, length, get_or, length-map, arith, lt→leb, le→leb, lt→ltb,
  le→ltb, dec_lt,
}
use aetherion_os.Memory.Bitmap.{Bitmap, new, test_bit, is_set}
use aetherion_os.Memory.Bitmap.Bytes.{zero_byte}

-- The buffer has a bit for each index, and holds bytes.
pub record IsValid (b : Bitmap) : Type 0 where
  pub room : b.size ≤ 8 * length b.bytes
  pub words : All (λ byte. byte < 256) b.bytes

-- The bit at an index; false from `size` on.
unfoldable pub bit : Bitmap → ℕ → Bool
bit b i = if ltb i b.size then test_bit (get_or b.bytes (i / 8) 0) (i % 8) else false

pub All-get_or : (xs : List ℕ) (i : ℕ) → All (λ byte. byte < 256) xs → get_or xs i 0 < 256
All-get_or [] i h = omega arith
All-get_or (x ∷ xs) zero h = h.0
All-get_or (x ∷ xs) (suc i) h = All-get_or xs i h.1

pub byte_in_range : {b : Bitmap} (i : ℕ) → IsValid b → i < b.size → i / 8 < length b.bytes
byte_in_range i v h = omega arith

-- `is_set` does not panic, and reads the view.
pub is_set-bit : {b : Bitmap} (i : ℕ) → IsValid b → is_set b i ≡ done (bit b i)
unfolding is_set bit
is_set-bit {b} i v = elim (dec_lt i b.size) [
  | yes h ↦
      rw (lt→leb _ _ h, at_in_range b.bytes (i / 8) 0 (byte_in_range i v h), lt→ltb _ _ h) refl
  | no h ↦ rw (le→leb b.size i (omega arith), le→ltb i b.size (omega arith)) refl
]

pub bit_out_of_range : (b : Bitmap) (i : ℕ) → b.size ≤ i → bit b i ≡ false
unfolding bit
bit_out_of_range b i h = rw (le→ltb i b.size h) refl

pub bit-lt : (b : Bitmap) (i : ℕ) → bit b i ≡ true → i < b.size
unfolding bit
bit-lt b i h = ground arith

All-zero : (xs : List ℕ) → All (λ byte. byte < 256) (map (λ _. 0) xs)
All-zero [] = tt
All-zero (x ∷ xs) = (omega arith, All-zero xs)

get_or-zero : (xs : List ℕ) (i : ℕ) → get_or (map {B = ℕ} (λ _. 0) xs) i 0 ≡ 0
get_or-zero [] i = refl
get_or-zero (x ∷ xs) zero = refl
get_or-zero (x ∷ xs) (suc i) = get_or-zero xs i

pub size-new : (bytes : List ℕ) (size : ℕ) → (new bytes size).size ≡ size
unfolding new
size-new bytes size = refl

-- A new bitmap over a large enough buffer is valid, and every frame is free in it.
pub new-empty :
    (bytes : List ℕ) (size : ℕ)
    → size ≤ 8 * length bytes
    → IsValid (new bytes size) × ((i : ℕ) → bit (new bytes size) i ≡ false)
unfolding new bit
new-empty bytes size h = (
  record { room = omega (arith, length-map {B = ℕ} (λ _. 0) bytes); words = All-zero bytes },
  λ i. rw (get_or-zero bytes (i / 8), zero_byte (i % 8) (omega arith)) (ground arith),
)
