-- ===== src/Memory/FrameAllocator/Allocate.antt =====
-- `allocate_frame` (kernel/src/memory/frame_allocator.rs).
use aetherion_os.Base.{
  ℕ, ◌+◌, ◌≤◌, ◌<◌, ◌≡◌, refl, ap, ◌∙◌, Bool, true, false, Option, none, some, done, Returns, arith,
}
use aetherion_os.Base.Word.{add_usize}
use aetherion_os.Memory.Address.{PhysicalAddress}
use aetherion_os.Memory.Bitmap
use aetherion_os.Memory.Bitmap.View.{bit}
use aetherion_os.Memory.Bitmap.Update.{Writes, set-Writes}
use aetherion_os.Memory.Bitmap.First.{IsFirstClear, find_first_clear-IsFirstClear}
use aetherion_os.Memory.Bitmap.Counting.{
  allocated, count, count-write, count-le, count_all, WrittenAt, number,
}
use aetherion_os.Memory.FrameAllocator.{FrameAllocator, allocate_frame, frame_address}
use aetherion_os.Memory.FrameAllocator.Valid.{IsValid, Starts, frame_address-Starts}

-- `fa'` is `fa` with the frame `i` marked as `v`, and all else as it was.
pub record Marks (fa : FrameAllocator) (i : ℕ) (v : Bool) (fa' : FrameAllocator) : Type 0 where
  pub start : fa'.start_address ≡ fa.start_address
  pub total : fa'.total_frames ≡ fa.total_frames
  pub marks : WrittenAt (bit fa.bitmap) (bit fa'.bitmap) i v

-- What `allocate_frame` promises: the frame with the least address among the free ones, which is
-- free no longer, or no change when there is no free frame.
abbrev pub Allocates : FrameAllocator → Option PhysicalAddress × FrameAllocator → Type 0
Allocates fa (none, fa') = (fa' ≡ fa) × (fa.allocated_frames ≡ fa.total_frames)
Allocates fa (some addr, fa') =
    IsValid fa'
    × (fa'.allocated_frames ≡ fa.allocated_frames + 1)
    × ((i : ℕ) × Starts fa i addr
        × (bit fa.bitmap i ≡ false)
        × ((j : ℕ) → j < i → bit fa.bitmap j ≡ true)
        × Marks fa i true fa')

-- Counting after one write at an index below the size.
pub allocated-Writes :
    {b b' : Bitmap.Bitmap} (i : ℕ) (v : Bool)
    → Writes b i v b'
    → i < b.size
    → allocated b' + number (bit b i) ≡ allocated b + number v
allocated-Writes {b} {b'} i v w h =
    omega (arith, ap (count (bit b')) w.size, count-write (bit b) (bit b') i b.size v w.reads h)

module _ {fa : FrameAllocator} (valid : IsValid fa) where
  pub allocated_le_total : allocated fa.bitmap ≤ fa.total_frames
  allocated_le_total = omega (arith, count-le (bit fa.bitmap) fa.bitmap.size, valid.total)

  after_set :
      (i : ℕ) (b' : Bitmap.Bitmap)
      → i < fa.bitmap.size
      → bit fa.bitmap i ≡ false
      → ((j : ℕ) → j < i → bit fa.bitmap j ≡ true)
      → Writes fa.bitmap i true b'
      → Allocates fa (
        some (frame_address fa i),
        record fa { bitmap = b'; allocated_frames = add_usize fa.allocated_frames 1 },
      )
  after_set i b' h free least w =
      let counted = allocated-Writes i true w h in
      let room = allocated_le_total in
      let grown : add_usize fa.allocated_frames 1 ≡ fa.allocated_frames + 1 =
        omega (arith, valid.counted, valid.region.fits) in
      (
        record {
          bitmap = w.valid;
          total = w.size ∙ valid.total;
          counted = grown ∙ ground (arith, counted, free, valid.counted);
          region = valid.region;
        },
        grown,
        (
          i,
          frame_address-Starts i valid.region (omega (arith, valid.total)),
          free,
          least,
          record { start = refl; total = refl; marks = w.reads },
        ),
      )

  after_search :
      (found : Option ℕ)
      → Bitmap.find_first_clear fa.bitmap ≡ done found
      → IsFirstClear fa.bitmap found
      → Returns (allocate_frame fa) (Allocates fa)
  unfolding allocate_frame
  after_search none run full = (
    (none, fa),
    rw run refl,
    (
      refl,
      valid.counted ∙ count_all (bit fa.bitmap) fa.bitmap.size (λ j hj. full j hj hj) ∙ valid.total,
    ),
  )
  after_search (some i) run (h, free, least) =
      let (b', set, w) = set-Writes i valid.bitmap h in
      (
        (some (frame_address fa i), _),
        rw (run, set) refl,
        after_set i b' h free (λ j hj. least j hj (omega arith)) w,
      )

-- On a valid allocator allocate_frame does not panic; it returns the start of the first free
-- frame, which alone is marked, with the counter up by one and the allocator valid, or returns
-- none and changes nothing when the counter is at the total.
pub allocate_frame-Allocates :
    {fa : FrameAllocator} → IsValid fa → Returns (allocate_frame fa) (Allocates fa)
allocate_frame-Allocates valid =
    let (found, run, first) = find_first_clear-IsFirstClear valid.bitmap in
    after_search valid found run first
