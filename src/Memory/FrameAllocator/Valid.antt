-- ===== src/Memory/FrameAllocator/Valid.antt =====
-- The invariant of the frame allocator (kernel/src/memory/frame_allocator.rs), and which frame an
-- address belongs to.
use aetherion_os.Base.{ℕ, ◌+◌, ◌*◌, ◌/◌, ◌%◌, ◌≤◌, ◌<◌, ◌≡◌, sym, false, List, length, arith}
use aetherion_os.Base.Word.{usize_mod, add_usize, mul_usize}
use aetherion_os.Memory.Address.{PhysicalAddress, align_down_page}
use aetherion_os.Memory.Bitmap.View
use aetherion_os.Memory.Bitmap.View.{bit}
use aetherion_os.Memory.Bitmap.Counting.{allocated, count_none}
use aetherion_os.Memory.FrameAllocator.{FrameAllocator, new, frame_address, frame_index}

-- The region starts on a frame and lies in the address space.
pub record Region (start total : ℕ) : Type 0 where
  pub aligned : start % 4096 ≡ 0
  pub fits : start + total * 4096 < usize_mod

pub record IsValid (fa : FrameAllocator) : Type 0 where
  pub bitmap : View.IsValid fa.bitmap
  pub total : fa.bitmap.size ≡ fa.total_frames
  pub counted : fa.allocated_frames ≡ allocated fa.bitmap
  pub region : Region fa.start_address fa.total_frames

-- `addr` lies in frame `i` of the region.
pub record Owns (fa : FrameAllocator) (i : ℕ) (addr : PhysicalAddress) : Type 0 where
  pub known : i < fa.total_frames
  pub lo : fa.start_address + i * 4096 ≤ addr
  pub hi : addr < fa.start_address + i * 4096 + 4096

-- `addr` is the first address of frame `i` of the region.
pub record Starts (fa : FrameAllocator) (i : ℕ) (addr : PhysicalAddress) : Type 0 where
  pub known : i < fa.total_frames
  pub exact : addr ≡ fa.start_address + i * 4096

pub Starts-Owns :
    {fa : FrameAllocator} {i : ℕ} {addr : PhysicalAddress} → Starts fa i addr → Owns fa i addr
Starts-Owns s = omega arith

pub Owns-moved :
    {fa fa' : FrameAllocator} {i : ℕ} {addr : PhysicalAddress}
    → fa'.start_address ≡ fa.start_address
    → fa'.total_frames ≡ fa.total_frames
    → Owns fa i addr
    → Owns fa' i addr
Owns-moved s t o = omega arith

-- The addresses that belong to no frame.
abbrev pub IsOutside : FrameAllocator → PhysicalAddress → Type 0
IsOutside fa addr = (i : ℕ) → ¬ (Owns fa i addr)

pub frame_index-Owns :
    {fa : FrameAllocator} {i : ℕ} {addr : PhysicalAddress}
    → Region fa.start_address fa.total_frames
    → Owns fa i addr
    → frame_index fa addr ≡ i
unfolding frame_index
frame_index-Owns {fa} {i} {addr} r o =
    rw (align_down_page addr (omega (arith, r.fits, o.known, o.hi))) (omega arith)

-- An address outside the region has no index below the number of frames, also where the
-- subtraction wraps.
pub frame_index-lt-Owns :
    {fa : FrameAllocator} (addr : PhysicalAddress)
    → Region fa.start_address fa.total_frames
    → addr < usize_mod
    → frame_index fa addr < fa.total_frames
    → Owns fa (frame_index fa addr) addr
unfolding frame_index
frame_index-lt-Owns {fa} addr r h =
    rw (align_down_page addr h) (λ lt. record { known = lt; lo = omega arith; hi = omega arith })

-- The address of a frame, as the code computes it, does not wrap.
pub frame_address_lem :
    (fa : FrameAllocator) (i : ℕ)
    → Region fa.start_address fa.total_frames
    → i < fa.total_frames
    → frame_address fa i ≡ fa.start_address + i * 4096
unfolding frame_address
frame_address_lem fa i r h = omega arith

pub frame_address-Starts :
    {fa : FrameAllocator} (i : ℕ)
    → Region fa.start_address fa.total_frames
    → i < fa.total_frames
    → Starts fa i (frame_address fa i)
frame_address-Starts {fa} i r h = record { known = h; exact = frame_address_lem fa i r h }

-- A new allocator is valid and has every frame free, if its buffer has a bit for each frame, the
-- region starts on a frame boundary and ends below the top of the address space.
pub new-IsValid :
    (start memory_size : ℕ) (buffer : List ℕ)
    → memory_size / 4096 ≤ 8 * length buffer
    → Region start (memory_size / 4096)
    → let fa = new start memory_size buffer in IsValid fa × ((i : ℕ) → bit fa.bitmap i ≡ false)
unfolding new
new-IsValid start memory_size buffer h r =
    let (valid, empty) = View.new-empty buffer (memory_size / 4096) h in
    (
      record {
        bitmap = valid;
        total = View.size-new buffer (memory_size / 4096);
        counted = sym (count_none _ _ (λ j _. empty j));
        region = r;
      },
      empty,
    )

-- If the region does not start on a frame boundary, the address that allocate_frame computes for
-- frame i + 1 is turned back into index i, so its deallocation acts on another frame.
pub frame_index_unaligned :
    (fa : FrameAllocator) (i : ℕ)
    → 0 < fa.start_address % 4096
    → fa.start_address + fa.total_frames * 4096 < usize_mod
    → i + 1 < fa.total_frames
    → frame_index fa (frame_address fa (i + 1)) ≡ i
unfolding frame_index frame_address
frame_index_unaligned fa i h r lt =
    let e : add_usize fa.start_address (mul_usize (i + 1) 4096)
        ≡ fa.start_address + (i + 1) * 4096 =
      omega arith in
    rw (e, align_down_page (fa.start_address + (i + 1) * 4096) (omega arith)) (omega arith)
