-- ===== src/Memory/FrameAllocator.antt =====
-- kernel/src/memory/frame_allocator.rs: physical frames of 4 KiB, handed out from a bitmap.
-- Arithmetic wraps, as in the release build; a panic of the bitmap is passed on.
pub mod Valid
pub mod Allocate
pub mod Contiguous
pub mod Release
pub mod Stats
pub mod Held
pub mod Runs
pub mod Client
mod Tests
use aetherion_os.Base.{
  ℕ, zero, suc, ◌+◌, ◌-◌, ◌*◌, ◌/◌, Bool, true, false, Option, none, some, List, ltb, ◌==◌,
  if◌then◌else◌, Run, done, panic, ◌>>=◌,
}
use aetherion_os.Base.Word.{add_usize, sub_usize, mul_usize}
use aetherion_os.Memory.Address.{PhysicalAddress, frame_size, align_down}
use aetherion_os.Memory.Bitmap
use aetherion_os.Memory.Bitmap.{Bitmap}

pub record FrameAllocator : Type 0 where
  pub bitmap : Bitmap
  pub start_address : PhysicalAddress
  pub total_frames : ℕ
  pub allocated_frames : ℕ

pub new : PhysicalAddress → ℕ → List ℕ → FrameAllocator
new start_addr memory_size bitmap_buffer =
    let total = memory_size / frame_size in
    record {
      bitmap = Bitmap.new bitmap_buffer total;
      start_address = start_addr;
      total_frames = total;
      allocated_frames = 0;
    }

-- `self.start_address.as_usize() + (frame_idx * FRAME_SIZE)`
unfoldable pub frame_address : FrameAllocator → ℕ → PhysicalAddress
frame_address fa idx = add_usize fa.start_address (mul_usize idx frame_size)

-- `(addr.align_down(FRAME_SIZE).as_usize() - self.start_address.as_usize()) / FRAME_SIZE`
pub frame_index : FrameAllocator → PhysicalAddress → ℕ
frame_index fa addr = sub_usize (align_down addr frame_size) fa.start_address / frame_size

unfoldable pub allocate_frame : FrameAllocator → Run (Option PhysicalAddress × FrameAllocator)
allocate_frame fa = do
  found ← Bitmap.find_first_clear fa.bitmap
  elim found [
    | none ↦ done (none, fa)
    | some frame_idx ↦ Bitmap.set fa.bitmap frame_idx >>= λ b. done (
      some (frame_address fa frame_idx),
      record fa { bitmap = b; allocated_frames = add_usize fa.allocated_frames 1 },
    )
  ]

-- `for idx in start_idx..(start_idx + count) { self.bitmap.set(idx) }`, with the rounds left.
pub set_range : Bitmap → ℕ → ℕ → Run Bitmap
set_range b zero idx = done b
set_range b (suc left) idx = do b' ← Bitmap.set b idx; set_range b' left (idx + 1)

pub allocate_frames : FrameAllocator → ℕ → Run (Option PhysicalAddress × FrameAllocator)
allocate_frames fa count =
    if count == 0
    then done (none, fa)
    else Bitmap.find_consecutive_clear fa.bitmap count >>= λ found. elim found [
      | none ↦ done (none, fa)
      | some start_idx ↦
          set_range fa.bitmap (add_usize start_idx count - start_idx) start_idx >>= λ b. done (
            some (frame_address fa start_idx),
            record fa { bitmap = b; allocated_frames = add_usize fa.allocated_frames count },
          )
    ]

-- `frame_idx < self.total_frames && self.bitmap.is_set(frame_idx)`
pub is_taken : FrameAllocator → ℕ → Run Bool
is_taken fa idx = if ltb idx fa.total_frames then Bitmap.is_set fa.bitmap idx else done false

pub release : FrameAllocator → ℕ → Run FrameAllocator
release fa idx = do
  taken ← is_taken fa idx
  if taken
      then Bitmap.clear fa.bitmap idx >>= (λ b.
        done (record fa { bitmap = b; allocated_frames = sub_usize fa.allocated_frames 1 }))
      else done fa

pub deallocate_frame : FrameAllocator → PhysicalAddress → Run FrameAllocator
deallocate_frame fa addr = release fa (frame_index fa addr)

pub release_range : FrameAllocator → ℕ → ℕ → Run FrameAllocator
release_range fa zero idx = done fa
release_range fa (suc left) idx = do fa' ← release fa idx; release_range fa' left (idx + 1)

-- The end of the range, `start_idx + count`, wraps too; the range is empty if it is too small.
pub deallocate_frames : FrameAllocator → PhysicalAddress → ℕ → Run FrameAllocator
deallocate_frames fa addr count =
    let start_idx = frame_index fa addr in
    release_range fa (add_usize start_idx count - start_idx) start_idx

pub free_frames : FrameAllocator → ℕ
free_frames fa = sub_usize fa.total_frames fa.allocated_frames

pub total_memory : FrameAllocator → ℕ
total_memory fa = mul_usize fa.total_frames frame_size

pub free_memory : FrameAllocator → ℕ
free_memory fa = mul_usize (free_frames fa) frame_size

pub allocated_memory : FrameAllocator → ℕ
allocated_memory fa = mul_usize fa.allocated_frames frame_size

pub usage_percent : FrameAllocator → ℕ
usage_percent fa =
    if fa.total_frames == 0 then 0 else mul_usize fa.allocated_frames 100 / fa.total_frames

pub is_allocated : FrameAllocator → PhysicalAddress → Run Bool
is_allocated fa addr = is_taken fa (frame_index fa addr)
