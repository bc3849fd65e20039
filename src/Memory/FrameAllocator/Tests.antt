-- ===== src/Memory/FrameAllocator/Tests.antt =====
-- Runs of kernel/src/memory/frame_allocator.rs, and its theorems at a region of ten frames.
use aetherion_os.Base.{◌≡◌, refl, [], ◌∷◌, some, done, Returns, at, arith}
use aetherion_os.Memory.Address.{align_down}
use aetherion_os.Base.Align
use aetherion_os.Memory.Bitmap.{
  find_first_clear, scan_bytes, scan_byte, find_consecutive_clear, scan_run, is_set, set, clear,
  update_byte,
}
use aetherion_os.Memory.Bitmap.View.{bit}
use aetherion_os.Memory.Bitmap.Counting.{count}
use aetherion_os.Memory.FrameAllocator.{
  FrameAllocator, allocate_frame, allocate_frames, deallocate_frame, deallocate_frames,
  frame_address, frame_index, release, is_taken, set_range, release_range,
}
use aetherion_os.Memory.FrameAllocator.Valid.{IsValid, Region, Owns, IsOutside}
use aetherion_os.Memory.FrameAllocator.Allocate.{Allocates, allocate_frame-Allocates}
use aetherion_os.Memory.FrameAllocator.Contiguous.{AllocatesRun, allocate_frames-AllocatesRun}
use aetherion_os.Memory.FrameAllocator.Release.{
  Releases, ReleasesRange, deallocate_frame-Releases, deallocate_frames-ReleasesRange,
}
use aetherion_os.Memory.FrameAllocator.Held.{IsSound}
use aetherion_os.Memory.FrameAllocator.Client.{
  Reach, here, next, allocate, allocate_run, deallocate, deallocate_run, Reach-IsSound,
}

-- Frames 0 and 1 of ten are taken.
abbrev ten : FrameAllocator
ten = record {
  bitmap = record { bytes = 3 ∷ 0 ∷ []; size = 10 };
  start_address = 0x100000;
  total_frames = 10;
  allocated_frames = 2;
}

ten-Region : Region 0x100000 10
ten-Region = omega arith

ten-IsValid : IsValid ten
unfolding bit count
ten-IsValid = record {
  bitmap = record { room = omega arith; words = omega arith };
  total = refl;
  counted = refl;
  region = ten-Region;
}

allocate_frame_example : Returns (allocate_frame ten) (Allocates ten)
allocate_frame_example = allocate_frame-Allocates ten-IsValid

allocate_frames_example : Returns (allocate_frames ten 3) (AllocatesRun ten 3)
allocate_frames_example = allocate_frames-AllocatesRun 3 ten-IsValid (omega arith)

inside : Owns ten 1 0x101234
inside = omega arith

deallocate_frame_example : Returns (deallocate_frame ten 0x101234) (Releases ten 1)
deallocate_frame_example = deallocate_frame-Releases ten-IsValid inside

outside : IsOutside ten 0x1000
outside i o = omega (arith, o.lo)

deallocate_frames_example : Returns (deallocate_frames ten 0x101234 20) (ReleasesRange ten 1 20)
deallocate_frames_example = deallocate_frames-ReleasesRange 20 ten-IsValid inside (omega arith)

-- The allocator after one more allocation.
abbrev three_taken : FrameAllocator
three_taken = record ten { bitmap = record { bytes = 7 ∷ 0 ∷ []; size = 10 }; allocated_frames = 3 }

allocated_third : allocate_frame ten ≡ done (some 0x102000, three_taken)
unfolding allocate_frame find_first_clear scan_bytes scan_byte is_set set update_byte at
    frame_address
allocated_third = refl

abbrev fresh : FrameAllocator
fresh = record {
  bitmap = record { bytes = 0 ∷ 0 ∷ []; size = 10 };
  start_address = 0x100000;
  total_frames = 10;
  allocated_frames = 0;
}

-- A client takes frame 0 and gives it back.
abbrev one_taken : FrameAllocator
one_taken = record fresh { bitmap = record { bytes = 1 ∷ 0 ∷ []; size = 10 }; allocated_frames = 1 }

allocated_first : allocate_frame fresh ≡ done (some 0x100000, one_taken)
unfolding allocate_frame find_first_clear scan_bytes scan_byte is_set set update_byte at
    frame_address
allocated_first = refl

deallocated_first : deallocate_frame one_taken 0x100000 ≡ done fresh
unfolding deallocate_frame release is_taken is_set clear update_byte at frame_index align_down
    Align.align_down
deallocated_first = refl

fresh-IsSound : IsSound (record { fa = fresh; held = [] })
unfolding bit count
fresh-IsSound = record {
  valid = record {
    bitmap = record { room = omega arith; words = omega arith };
    total = refl;
    counted = refl;
    region = ten-Region;
  };
  live = tt;
  distinct = tt;
  counted = refl;
}

-- Two more frames at once, and frames 0 and 1 given back at once.
abbrev all_taken : FrameAllocator
all_taken = record fresh { bitmap = record { bytes = 7 ∷ 0 ∷ []; size = 10 }; allocated_frames = 3 }

abbrev last_taken : FrameAllocator
last_taken = record fresh {
  bitmap = record { bytes = 4 ∷ 0 ∷ []; size = 10 };
  allocated_frames = 1;
}

allocated_two : allocate_frames one_taken 2 ≡ done (some 0x101000, all_taken)
unfolding allocate_frames find_consecutive_clear scan_run set_range is_set set update_byte at
    frame_address
allocated_two = refl

deallocated_two : deallocate_frames all_taken 0x100000 2 ≡ done last_taken
unfolding deallocate_frames release_range release is_taken is_set clear update_byte at frame_index
    align_down Align.align_down
deallocated_two = refl

first_held :
    Reach (record { fa = fresh; held = [] }) (record { fa = one_taken; held = 0x100000 ∷ [] })
first_held =
    next
      (next
        (next here (allocate (record { fa = fresh; held = [] }) 0x100000 one_taken allocated_first))
        (deallocate (record { fa = one_taken; held = 0x100000 ∷ [] }) [] [] 0x100000 fresh refl
          deallocated_first))
      (allocate (record { fa = fresh; held = [] }) 0x100000 one_taken allocated_first)

last_held :
    Reach (record { fa = fresh; held = [] }) (record { fa = last_taken; held = 0x102000 ∷ [] })
last_held =
    next
      (next first_held (
        allocate_run (record { fa = one_taken; held = 0x100000 ∷ [] }) 2 0x101000 all_taken
          allocated_two))
      (deallocate_run (record { fa = all_taken; held = 0x101000 ∷ 0x102000 ∷ 0x100000 ∷ [] })
        (0x102000 ∷ []) 0x100000 2 last_taken
        (0x101000 ∷ 0x102000 ∷ [], [], refl, ([], 0x102000 ∷ [], refl, refl)) deallocated_two)

Reach-IsSound_example : IsSound (record { fa = last_taken; held = 0x102000 ∷ [] })
Reach-IsSound_example = Reach-IsSound fresh-IsSound last_held
