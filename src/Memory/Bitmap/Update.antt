-- ===== src/Memory/Bitmap/Update.antt =====
-- `set` and `clear` (kernel/src/memory/bitmap.rs) against the view.
use aetherion_os.Base.{
  ℕ, zero, suc, ◌/◌, ◌%◌, ◌≤◌, ◌<◌, ◌≡◌, refl, Bool, true, false, List, [], ◌∷◌, ◌==◌,
  if◌then◌else◌, done, Returns, at_in_range, All, length, get_or, set as set_elem, length-set,
  get_or-set_self, get_or-set_ne, arith, lt→ltb, le→ltb, ℕ_discrete,
}
use aetherion_os.Memory.Bitmap.{Bitmap, set, clear, update_byte, test_bit}
use aetherion_os.Memory.Bitmap.Bytes.{BitWritten, set-BitWritten, clear-BitWritten}
use aetherion_os.Memory.Bitmap.View.{IsValid, bit, byte_in_range, All-get_or}

-- `b'` is `b` with the bit at `i` set to `v` and every other bit as it was.
pub record Writes (b : Bitmap) (i : ℕ) (v : Bool) (b' : Bitmap) : Type 0 where
  pub valid : IsValid b'
  pub size : b'.size ≡ b.size
  pub reads : (j : ℕ) → bit b' j ≡ (if i == j then v else bit b j)

All-set :
    (xs : List ℕ) (i x : ℕ)
    → All (λ byte. byte < 256) xs
    → x < 256
    → All (λ byte. byte < 256) (set_elem xs i x)
All-set [] i x h hx = h
All-set (y ∷ xs) zero x h hx = (hx, h.1)
All-set (y ∷ xs) (suc i) x h hx = (h.0, All-set xs i x h.1 hx)

-- The bits of a buffer after one byte is written.
written_bit :
    (bytes : List ℕ) (i : ℕ) {new : ℕ} {v : Bool} (j : ℕ)
    → i / 8 < length bytes
    → BitWritten (get_or bytes (i / 8) 0) new (i % 8) v
    → test_bit (get_or (set_elem bytes (i / 8) new) (j / 8) 0) (j % 8)
      ≡ (if i == j then v else test_bit (get_or bytes (j / 8) 0) (j % 8))
written_bit bytes i {new} {v} j h w = elim (ℕ_discrete (i / 8) (j / 8)) [
  | yes e ↦
      rw (← e, get_or-set_self bytes (i / 8) new 0 h, w.reads (j % 8) (omega arith)) (ground arith)
  | no ne ↦ rw (get_or-set_ne bytes (i / 8) (j / 8) new 0 ne) (ground arith)
]

update_byte-Writes :
    {b : Bitmap} (i : ℕ) (f : ℕ → ℕ) {v : Bool}
    → IsValid b
    → i < b.size
    → BitWritten (get_or b.bytes (i / 8) 0) (f (get_or b.bytes (i / 8) 0)) (i % 8) v
    → Returns (update_byte b (i / 8) f) (Writes b i v)
unfolding update_byte bit
update_byte-Writes {b} i f v h w = (
  record b { bytes = set_elem b.bytes (i / 8) (f (get_or b.bytes (i / 8) 0)) },
  rw (at_in_range b.bytes (i / 8) 0 (byte_in_range i v h)) refl,
  record {
    valid = record {
      room = omega (arith, length-set b.bytes (i / 8) (f (get_or b.bytes (i / 8) 0)), v.room);
      words = All-set b.bytes (i / 8) _ v.words w.fits;
    };
    size = refl;
    reads = λ j. rw (written_bit b.bytes i j (byte_in_range i v h) w) (ground arith);
  },
)

pub set-Writes : {b : Bitmap} (i : ℕ) → IsValid b → i < b.size → Returns (set b i) (Writes b i true)
unfolding set
set-Writes {b} i v h = rw (lt→ltb _ _ h) (
    update_byte-Writes i _ v h
      (set-BitWritten _ (i % 8) (All-get_or b.bytes (i / 8) v.words) (omega arith)))

pub clear-Writes :
    {b : Bitmap} (i : ℕ) → IsValid b → i < b.size → Returns (clear b i) (Writes b i false)
unfolding clear
clear-Writes {b} i v h = rw (lt→ltb _ _ h) (
    update_byte-Writes i _ v h
      (clear-BitWritten _ (i % 8) (All-get_or b.bytes (i / 8) v.words) (omega arith)))

-- On a valid bitmap, at an index below the size, set and clear do not panic, change that one bit
-- and no other, and keep the bitmap valid.
pub set-clear-Writes :
    {b : Bitmap} (i : ℕ)
    → IsValid b
    → i < b.size
    → Returns (set b i) (Writes b i true) × Returns (clear b i) (Writes b i false)
set-clear-Writes i v h = (set-Writes i v h, clear-Writes i v h)

-- Out of range both leave the bitmap as it is.
pub set_out_of_range : (b : Bitmap) (i : ℕ) → b.size ≤ i → set b i ≡ done b
unfolding set
set_out_of_range b i h = rw (le→ltb _ _ h) refl

pub clear_out_of_range : (b : Bitmap) (i : ℕ) → b.size ≤ i → clear b i ≡ done b
unfolding clear
clear_out_of_range b i h = rw (le→ltb _ _ h) refl
