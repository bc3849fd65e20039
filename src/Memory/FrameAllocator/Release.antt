-- ===== src/Memory/FrameAllocator/Release.antt =====
-- `deallocate_frame`, `deallocate_frames` and `is_allocated`
-- (kernel/src/memory/frame_allocator.rs).
use aetherion_os.Base.{
  ℕ, zero, suc, ◌+◌, ◌-◌, ◌<◌, ◌≡◌, refl, ◌∙◌, true, false, done, Returns, if◌then◌else◌, arith,
  dec_lt, lt→ltb, le→ltb, Bool-cases, inl, inr,
}
use aetherion_os.Base.Word.{add_usize, sub_usize, usize_mod}
use aetherion_os.Memory.Address.{PhysicalAddress}
use aetherion_os.Memory.Bitmap
use aetherion_os.Memory.Bitmap.View.{bit, bit-lt, is_set-bit, bit_out_of_range}
use aetherion_os.Memory.Bitmap.Update.{Writes, clear-Writes}
use aetherion_os.Memory.Bitmap.Counting.{allocated, number, count-le}
use aetherion_os.Memory.FrameAllocator.{
  FrameAllocator, release, release_range, deallocate_frame, deallocate_frames, is_taken,
  is_allocated, frame_index,
}
use aetherion_os.Memory.FrameAllocator.Valid.{
  IsValid, Owns, IsOutside, frame_index-Owns, frame_index-lt-Owns,
}
use aetherion_os.Memory.FrameAllocator.Allocate.{Marks, allocated-Writes}
use aetherion_os.Memory.FrameAllocator.Contiguous.{within}

-- `fa'` is `fa` with the frame `i` free, the counter down by one if it was taken.
pub record Releases (fa : FrameAllocator) (i : ℕ) (fa' : FrameAllocator) : Type 0 where
  pub valid : IsValid fa'
  pub marked : Marks fa i false fa'
  pub counted : fa'.allocated_frames + number (bit fa.bitmap i) ≡ fa.allocated_frames

is_taken-bit : {fa : FrameAllocator} (i : ℕ) → IsValid fa → is_taken fa i ≡ done (bit fa.bitmap i)
unfolding is_taken
is_taken-bit {fa} i v = elim (dec_lt i fa.total_frames) [
  | yes h ↦ rw (lt→ltb _ _ h, is_set-bit i v.bitmap) refl
  | no h ↦
      rw
        (
          le→ltb i fa.total_frames (omega arith),
          bit_out_of_range fa.bitmap i (omega (arith, v.total)),
        )
        refl
]

release-clear :
    {fa : FrameAllocator} (i : ℕ) (b' : Bitmap.Bitmap)
    → IsValid fa
    → bit fa.bitmap i ≡ true
    → i < fa.bitmap.size
    → Writes fa.bitmap i false b'
    → Releases fa i (record fa { bitmap = b'; allocated_frames = sub_usize fa.allocated_frames 1 })
release-clear {fa} i b' v taken h w =
    let fewer : allocated b' + 1 ≡ allocated fa.bitmap =
      ground (arith, allocated-Writes i false w h, taken) in
    let room = count-le (bit fa.bitmap) fa.bitmap.size in
    let down : sub_usize fa.allocated_frames 1 ≡ allocated b' =
      omega (arith, fewer, v.counted, room, v.total, v.region.fits) in
    record {
      valid = record {
        bitmap = w.valid;
        total = w.size ∙ v.total;
        counted = down;
        region = v.region;
      };
      marked = record { start = refl; total = refl; marks = w.reads };
      counted = rw taken (omega (arith, down, fewer, v.counted));
    }

-- On any index `release` is total, and frees that frame only.
pub release-Releases :
    {fa : FrameAllocator} (i : ℕ) → IsValid fa → Returns (release fa i) (Releases fa i)
unfolding release
release-Releases {fa} i v = rw (is_taken-bit i v) (elim (Bool-cases (bit fa.bitmap i)) [
  | inl taken ↦
      let h = bit-lt fa.bitmap i taken in
      let (b', clear, w) = clear-Writes i v.bitmap h in
      (_, rw (taken, clear) refl, release-clear i b' v taken h w)
  | inr free ↦ (
    fa,
    rw free refl,
    record {
      valid = v;
      marked = record { start = refl; total = refl; marks = λ j. ground (arith, free) };
      counted = rw free (omega arith);
    },
  )
])

-- On a valid allocator deallocate_frame of any address inside a frame does not panic, frees that
-- frame and no other, lowers the counter by one exactly if the frame was taken, and keeps the
-- allocator valid.
pub deallocate_frame-Releases :
    {fa : FrameAllocator} {i : ℕ} {addr : PhysicalAddress}
    → IsValid fa
    → Owns fa i addr
    → Returns (deallocate_frame fa addr) (Releases fa i)
unfolding deallocate_frame
deallocate_frame-Releases {fa} {i} {addr} v o =
    rw (frame_index-Owns v.region o) (release-Releases i v)

-- On a valid allocator deallocate_frame of an address that lies in no frame leaves the allocator
-- as it is, also below the region, where the subtraction wraps.
pub deallocate_frame_outside :
    {fa : FrameAllocator} (addr : PhysicalAddress)
    → IsValid fa
    → addr < usize_mod
    → IsOutside fa addr
    → deallocate_frame fa addr ≡ done fa
unfolding deallocate_frame release is_taken
deallocate_frame_outside {fa} addr v h out = elim (dec_lt (frame_index fa addr) fa.total_frames) [
  | yes p ↦ absurd (out _ (frame_index-lt-Owns addr v.region h p))
  | no p ↦ rw (le→ltb (frame_index fa addr) fa.total_frames (omega arith)) refl
]

-- `is_allocated` tells whether the frame of the address is taken.
pub is_allocated-bit :
    {fa : FrameAllocator} {i : ℕ} {addr : PhysicalAddress}
    → IsValid fa
    → Owns fa i addr
    → is_allocated fa addr ≡ done (bit fa.bitmap i)
unfolding is_allocated
is_allocated-bit v o = rw (frame_index-Owns v.region o) (is_taken-bit _ v)

-- `fa'` is `fa` with the `n` frames from `s` on free.
pub record ReleasesRange (fa : FrameAllocator) (s n : ℕ) (fa' : FrameAllocator) : Type 0 where
  pub valid : IsValid fa'
  pub start : fa'.start_address ≡ fa.start_address
  pub total : fa'.total_frames ≡ fa.total_frames
  pub reads : (j : ℕ) → bit fa'.bitmap j ≡ (if within s n j then false else bit fa.bitmap j)

pub release_range-ReleasesRange :
    (n s : ℕ) (fa : FrameAllocator)
    → IsValid fa
    → Returns (release_range fa n s) (ReleasesRange fa s n)
unfolding release_range
release_range-ReleasesRange zero s fa v =
    (fa, refl, record { valid = v; start = refl; total = refl; reads = λ j. ground arith })
release_range-ReleasesRange (suc n) s fa v =
    let (fa1, one, r) = release-Releases s v in
    let (fa', run, rest) = release_range-ReleasesRange n (s + 1) fa1 r.valid in
    (
      fa',
      rw one run,
      record {
        valid = rest.valid;
        start = rest.start ∙ r.marked.start;
        total = rest.total ∙ r.marked.total;
        reads = λ j. rw (rest.reads j, r.marked.marks j) (ground arith);
      },
    )

-- On a valid allocator deallocate_frames does not panic and frees the given number of frames from
-- that of the address on, as far as there are any, and no other, if the end of the index range
-- does not wrap.
pub deallocate_frames-ReleasesRange :
    {fa : FrameAllocator} {i : ℕ} {addr : PhysicalAddress} (count : ℕ)
    → IsValid fa
    → Owns fa i addr
    → i + count < usize_mod
    → Returns (deallocate_frames fa addr count) (ReleasesRange fa i count)
unfolding deallocate_frames
deallocate_frames-ReleasesRange {fa} {i} count v o h =
    let rounds : add_usize i count - i ≡ count = omega arith in
    rw (frame_index-Owns v.region o, rounds) (release_range-ReleasesRange count i fa v)
