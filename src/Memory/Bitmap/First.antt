-- ===== src/Memory/Bitmap/First.antt =====
-- `find_first_clear` (kernel/src/memory/bitmap.rs): the search that skips full bytes finds the
-- least free index.
use aetherion_os.Base.{
  ℕ, zero, suc, ◌+◌, ◌*◌, ◌/◌, ◌%◌, ◌<◌, ◌≡◌, refl, ap, true, false, List, [], ◌∷◌, Option, none,
  some, done, Returns, ◌==◌, length, get_or, arith, dec_lt, dec_le, Bool-cases, inl, inr, le→leb,
  lt→leb, ==→eq, lt→ltb,
}
use aetherion_os.Memory.Bitmap.{Bitmap, Flow, return, next, scan_byte, scan_bytes, find_first_clear}
use aetherion_os.Memory.Bitmap.Bytes.{full_byte}
use aetherion_os.Memory.Bitmap.View.{IsValid, bit, is_set-bit}

-- The frames below `m` are taken, as far as there are any.
abbrev pub TakenBelow : Bitmap → ℕ → Type 0
TakenBelow b m = (j : ℕ) → j < m → j < b.size → bit b j ≡ true

-- The least free index, or none if every frame is taken.
abbrev pub IsFirstClear : Bitmap → Option ℕ → Type 0
IsFirstClear b none = TakenBelow b b.size
IsFirstClear b (some i) = (i < b.size) × (bit b i ≡ false) × TakenBelow b i

abbrev ByteScanned : Bitmap → ℕ → Flow (Option ℕ) → Type 0
ByteScanned b k (return r) = IsFirstClear b r
ByteScanned b k next = TakenBelow b (k * 8 + 8)

TakenBelow-suc : (b : Bitmap) (m : ℕ) → TakenBelow b m → bit b m ≡ true → TakenBelow b (m + 1)
TakenBelow-suc b m h e j hj hs = elim (dec_lt j m) [
  | yes p ↦ h j p hs
  | no p ↦ let q : j ≡ m = omega arith in rw q e
]

scan_byte-ByteScanned :
    {b : Bitmap} (k left t : ℕ)
    → IsValid b
    → t + left ≡ 8
    → TakenBelow b (k * 8 + t)
    → Returns (scan_byte b k left t) (ByteScanned b k)
unfolding scan_byte
scan_byte-ByteScanned {b} k zero t v e h = (next, refl, λ j hj hs. h j (omega arith) hs)
scan_byte-ByteScanned {b} k (suc left) t v e h = elim (dec_le b.size (k * 8 + t)) [
  | yes p ↦ rw (le→leb _ _ p) (return none, refl, λ j hj hs. h j (omega arith) hs)
  | no p ↦
      let q : k * 8 + t < b.size = omega arith in
      rw (lt→leb _ _ q, is_set-bit (k * 8 + t) v)
        (elim (Bool-cases (bit b (k * 8 + t))) [
          | inr free ↦ rw free (return (some (k * 8 + t)), refl, (q, free, h))
          | inl taken ↦
              let r : k * 8 + (t + 1) ≡ k * 8 + t + 1 = omega arith in
              rw taken (
                scan_byte-ByteScanned k left (t + 1) v (omega arith)
                  (rw r (TakenBelow-suc b (k * 8 + t) h taken)))
        ])
]

-- `bytes` is the buffer of `b` from byte `k` on.
record IsRest (b : Bitmap) (k : ℕ) (bytes : List ℕ) : Type 0 where
  count : k + length bytes ≡ length b.bytes
  reads : (i : ℕ) → get_or bytes i 0 ≡ get_or b.bytes (k + i) 0

IsRest-tail :
    {b : Bitmap} (k byte : ℕ) (bytes : List ℕ) → IsRest b k (byte ∷ bytes) → IsRest b (k + 1) bytes
IsRest-tail k byte bytes r = record {
  count = omega (arith, r.count);
  reads = λ i. let e : k + 1 + i ≡ k + suc i = omega arith in rw e (r.reads (suc i));
}

full_byte_taken :
    {b : Bitmap} (k byte : ℕ) (bytes : List ℕ)
    → IsRest b k (byte ∷ bytes)
    → byte ≡ 0xFF
    → TakenBelow b (k * 8)
    → TakenBelow b ((k + 1) * 8)
unfolding bit
full_byte_taken {b} k byte bytes r full h j hj hs = elim (dec_lt j (k * 8)) [
  | yes p ↦ h j p hs
  | no p ↦
      let q : j / 8 ≡ k + 0 = omega arith in
      rw (lt→ltb _ _ hs, q, ← r.reads 0, full) (full_byte (j % 8) (omega arith))
]

scan_bytes-IsFirstClear :
    {b : Bitmap} (bytes : List ℕ) (k : ℕ)
    → IsValid b
    → IsRest b k bytes
    → TakenBelow b (k * 8)
    → Returns (scan_bytes b bytes k) (IsFirstClear b)
unfolding scan_bytes
scan_bytes-IsFirstClear [] k v r h =
    (none, refl, λ j hj hs. h j (omega (arith, r.count, v.room)) hs)
scan_bytes-IsFirstClear {b} (byte ∷ bytes) k v r h =
    let rest = scan_bytes-IsFirstClear bytes (k + 1) v (IsRest-tail k byte bytes r) in
    elim (Bool-cases (byte == 0xFF)) [
      | inl full ↦ rw full (rest (full_byte_taken k byte bytes r (==→eq _ _ full) h))
      | inr other ↦
          let start : k * 8 + 0 ≡ k * 8 = omega arith in
          let (f, run, scanned) = scan_byte-ByteScanned k 8 0 v refl (rw start h) in
          rw (other, run) (after f scanned rest)
    ]
  where
    after :
        (f : Flow (Option ℕ))
        → ByteScanned b k f
        → (TakenBelow b ((k + 1) * 8) → Returns (scan_bytes b bytes (k + 1)) (IsFirstClear b))
        → Returns
            (elim f [ return found ↦ done found | next ↦ scan_bytes b bytes (k + 1) ])
            (IsFirstClear b)
    after (return r) s rest = (r, refl, s)
    after next s rest = rest (λ j hj hs. s j (omega arith) hs)

-- On a valid bitmap the search that skips full bytes does not panic and returns the least free
-- index, or none exactly when every frame is taken.
pub find_first_clear-IsFirstClear :
    {b : Bitmap} → IsValid b → Returns (find_first_clear b) (IsFirstClear b)
unfolding find_first_clear
find_first_clear-IsFirstClear {b} v =
    scan_bytes-IsFirstClear b.bytes 0 v
      (record {
        count = omega arith;
        reads = λ i. ap (λ (k : ℕ). get_or b.bytes k 0) (omega arith);
      })
      (λ j hj hs. absurd (omega arith))
