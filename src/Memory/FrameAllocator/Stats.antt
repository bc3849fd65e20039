-- ===== src/Memory/FrameAllocator/Stats.antt =====
-- The figures of kernel/src/memory/frame_allocator.rs, and an allocation undone.
use aetherion_os.Base.{
  ℕ, ◌+◌, ◌*◌, ◌≤◌, ◌≡◌, sym, ◌∙◌, Option, some, done, Returns, ◌==◌, arith, Bool-cases, inl, inr,
  done-injective,
}
use mathlib.Core.Path.{subst}
use native.Mathlib.Nat.{div-le_of_le-mul, mod-le}
use aetherion_os.Base.Word.{usize_mod}
use aetherion_os.Memory.Address.{PhysicalAddress}
use aetherion_os.Memory.Bitmap.View.{bit}
use aetherion_os.Memory.FrameAllocator.{
  FrameAllocator, allocate_frame, deallocate_frame, free_frames, total_memory, free_memory,
  allocated_memory, usage_percent,
}
use aetherion_os.Memory.FrameAllocator.Valid.{IsValid, Starts-Owns, Owns-moved}
use aetherion_os.Memory.FrameAllocator.Allocate.{
  Allocates, allocate_frame-Allocates, allocated_le_total,
}
use aetherion_os.Memory.FrameAllocator.Release.{deallocate_frame-Releases}

-- On a valid allocator no figure wraps: free and allocated frames, and their bytes, add up to the
-- total, the total is 4096 bytes for each frame, and usage_percent is at most 100.
pub figures :
    {fa : FrameAllocator}
    → IsValid fa
    → (free_frames fa + fa.allocated_frames ≡ fa.total_frames)
      × (free_memory fa + allocated_memory fa ≡ total_memory fa)
      × (total_memory fa ≡ fa.total_frames * 4096)
      × (usage_percent fa ≤ 100)
unfolding free_frames free_memory allocated_memory total_memory usage_percent
figures {fa} v =
    let room : fa.allocated_frames ≤ fa.total_frames =
      omega (arith, v.counted, allocated_le_total v) in
    (
      omega (arith, v.region.fits),
      omega (arith, v.region.fits),
      omega (arith, v.region.fits),
      elim (Bool-cases (fa.total_frames == 0)) [
        | inl none ↦ rw none (omega arith)
        | inr any ↦ rw any (
            div-le_of_le-mul fa.total_frames
              (omega (arith, mod-le (fa.allocated_frames * 100) usize_mod)))
      ],
    )

-- An allocation and the deallocation of its frame cancel: the view and the counter are as before.
pub record Undone (fa fa' : FrameAllocator) : Type 0 where
  pub valid : IsValid fa'
  pub view : (j : ℕ) → bit fa'.bitmap j ≡ bit fa.bitmap j
  pub counter : fa'.allocated_frames ≡ fa.allocated_frames

-- What `allocate_frame` returned, with the promise for the result at hand.
pub promise :
    {fa : FrameAllocator} {r : Option PhysicalAddress × FrameAllocator}
    → IsValid fa
    → allocate_frame fa ≡ done r
    → Allocates fa r
promise {fa} v e =
    let (r', run, p) = allocate_frame-Allocates v in
    subst (Allocates fa) (done-injective (sym run ∙ e)) p

-- On a valid allocator, deallocating the frame that allocate_frame has just returned does not
-- panic and gives back a valid allocator with the same frames taken and the same counter.
pub deallocate-allocate :
    {fa fa' : FrameAllocator} {addr : PhysicalAddress}
    → IsValid fa
    → allocate_frame fa ≡ done (some addr, fa')
    → Returns (deallocate_frame fa' addr) (Undone fa)
deallocate-allocate {fa} {fa'} {addr} v e =
    let (valid, counted, (i, o, free, least, m)) = promise v e in
    let there = Owns-moved m.start m.total (Starts-Owns o) in
    let (fa'', run, r) = deallocate_frame-Releases valid there in
    (
      fa'',
      run,
      record {
        valid = r.valid;
        view = λ j. rw (r.marked.marks j, m.marks j) (ground (arith, free));
        counter = ground (arith, r.counted, counted, m.marks i);
      },
    )
