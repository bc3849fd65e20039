-- ===== src/Memory/FrameAllocator/Contiguous.antt =====
-- `allocate_frames` (kernel/src/memory/frame_allocator.rs): a run of frames at once.
use aetherion_os.Base.{
  ℕ, zero, suc, ◌+◌, ◌-◌, ◌≤◌, ◌<◌, ◌≡◌, refl, ◌∙◌, Bool, true, false, ◌&&◌, Option, none, some,
  done, Returns, ltb, leb, if◌then◌else◌, arith, ne→==,
}
use aetherion_os.Base.Word.{add_usize}
use aetherion_os.Memory.Address.{PhysicalAddress}
use aetherion_os.Memory.Bitmap
use aetherion_os.Memory.Bitmap.View
use aetherion_os.Memory.Bitmap.View.{bit}
use aetherion_os.Memory.Bitmap.Update.{Writes, set-Writes}
use aetherion_os.Memory.Bitmap.Consecutive.{
  FreeFrom, NoRunBy, IsFirstRun, find_consecutive_clear-IsFirstRun,
}
use aetherion_os.Memory.Bitmap.Counting.{allocated, count-le}
use aetherion_os.Memory.FrameAllocator.{FrameAllocator, allocate_frames, frame_address, set_range}
use aetherion_os.Memory.FrameAllocator.Valid.{IsValid, Starts, frame_address-Starts}
use aetherion_os.Memory.FrameAllocator.Allocate.{allocated-Writes}

-- The index `j` is one of the `n` from `s` on.
abbrev pub within : ℕ → ℕ → ℕ → Bool
within s n j = leb s j && ltb j (s + n)

-- `b'` is `b` with the `n` bits from `s` on set, all of which were clear.
pub record Fills (b : Bitmap.Bitmap) (s n : ℕ) (b' : Bitmap.Bitmap) : Type 0 where
  pub valid : View.IsValid b'
  pub size : b'.size ≡ b.size
  pub reads : (j : ℕ) → bit b' j ≡ (if within s n j then true else bit b j)
  pub grown : allocated b' ≡ allocated b + n

Fills-first :
    {b b1 b' : Bitmap.Bitmap} {s n : ℕ}
    → bit b s ≡ false
    → s < b.size
    → Writes b s true b1
    → Fills b1 (s + 1) n b'
    → Fills b s (suc n) b'
Fills-first {b} {b1} {b'} {s} {n} free h w f = record {
  valid = f.valid;
  size = f.size ∙ w.size;
  reads = λ j. rw (f.reads j, w.reads j) (ground arith);
  grown = ground (arith, f.grown, allocated-Writes s true w h, free);
}

pub set_range-Fills :
    (n s : ℕ) (b : Bitmap.Bitmap)
    → View.IsValid b
    → s + n ≤ b.size
    → FreeFrom b s n
    → Returns (set_range b n s) (Fills b s n)
unfolding set_range
set_range-Fills zero s b v h free =
    (b, refl, record { valid = v; size = refl; reads = λ j. ground arith; grown = omega arith })
set_range-Fills (suc n) s b v h free =
    let (b1, set, w) = set-Writes s v (omega arith) in
    let still : FreeFrom b1 (s + 1) n =
      λ j lo hi. w.reads j ∙ rw (ne→== s j (omega arith)) (free j (omega arith) (omega arith)) in
    let (b', run, f) = set_range-Fills n (s + 1) b1 w.valid (omega (arith, w.size)) still in
    (b', rw set run, Fills-first (free s (omega arith) (omega arith)) (omega arith) w f)

-- What `allocate_frames` promises for `count` frames: the first run of that many free frames,
-- which are free no longer, or no change if there is no such run.
abbrev pub AllocatesRun : FrameAllocator → ℕ → Option PhysicalAddress × FrameAllocator → Type 0
AllocatesRun fa count (none, fa') = (fa' ≡ fa) × NoRunBy fa.bitmap count fa.bitmap.size
AllocatesRun fa count (some addr, fa') =
    IsValid fa'
    × (fa'.start_address ≡ fa.start_address)
    × (fa'.total_frames ≡ fa.total_frames)
    × (fa'.allocated_frames ≡ fa.allocated_frames + count)
    × ((s : ℕ) × Starts fa s addr
        × (s + count ≤ fa.total_frames)
        × FreeFrom fa.bitmap s count
        × ((t : ℕ) → t < s → ¬ (FreeFrom fa.bitmap t count))
        × ((j : ℕ) → bit fa'.bitmap j ≡ (if within s count j then true else bit fa.bitmap j)))

module _ {fa : FrameAllocator} (count : ℕ) (valid : IsValid fa) (pos : 0 < count) where
  rounds : (s : ℕ) → s + count ≤ fa.bitmap.size → add_usize s count - s ≡ count
  rounds s h = omega (arith, valid.total, valid.region.fits)

  after_fill :
      (s : ℕ) (b' : Bitmap.Bitmap)
      → IsFirstRun fa.bitmap count (some s)
      → Fills fa.bitmap s count b'
      → AllocatesRun fa count (
        some (frame_address fa s),
        record fa { bitmap = b'; allocated_frames = add_usize fa.allocated_frames count },
      )
  after_fill s b' (h, free, least) f =
      let known : s < fa.total_frames = omega (arith, valid.total) in
      let grown : add_usize fa.allocated_frames count ≡ fa.allocated_frames + count = omega (
        arith,
        f.grown,
        count-le (bit b') b'.size,
        f.size,
        valid.total,
        valid.counted,
        valid.region.fits,
      ) in
      (
        record {
          bitmap = f.valid;
          total = f.size ∙ valid.total;
          counted = grown ∙ omega (arith, f.grown, valid.counted);
          region = valid.region;
        },
        refl,
        refl,
        grown,
        (
          s,
          frame_address-Starts s valid.region known,
          omega (arith, valid.total),
          free,
          least,
          f.reads,
        ),
      )

  after_search :
      (found : Option ℕ)
      → Bitmap.find_consecutive_clear fa.bitmap count ≡ done found
      → IsFirstRun fa.bitmap count found
      → Returns (allocate_frames fa count) (AllocatesRun fa count)
  unfolding allocate_frames
  after_search none run no_run =
      ((none, fa), rw (ne→== count 0 (omega arith), run) refl, (refl, no_run))
  after_search (some s) run first =
      let (b', set, f) = set_range-Fills count s fa.bitmap valid.bitmap first.0 first.1 in
      (
        (some (frame_address fa s), _),
        rw (ne→== count 0 (omega arith), run, rounds s first.0, set) refl,
        after_fill s b' first f,
      )

-- On a valid allocator allocate_frames of at least one frame does not panic; it marks the first
-- run of that many free frames and returns its start, or changes nothing if there is no such run.
pub allocate_frames-AllocatesRun :
    {fa : FrameAllocator} (count : ℕ)
    → IsValid fa
    → 0 < count
    → Returns (allocate_frames fa count) (AllocatesRun fa count)
allocate_frames-AllocatesRun count valid pos =
    let (found, run, first) = find_consecutive_clear-IsFirstRun count valid.bitmap pos in
    after_search count valid pos found run first

-- A request for no frames is refused.
pub allocate_frames-zero : (fa : FrameAllocator) → allocate_frames fa 0 ≡ done (none, fa)
unfolding allocate_frames
allocate_frames-zero fa = refl
