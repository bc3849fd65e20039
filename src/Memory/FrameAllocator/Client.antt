-- ===== src/Memory/FrameAllocator/Client.antt =====
-- The frame allocator under a client that holds frames and hands back only what it holds: the four
-- calls of kernel/src/memory/frame_allocator.rs that change its state as a step relation.
use aetherion_os.Base.{
  ℕ, ◌≡◌, sym, ◌∙◌, none, some, List, ◌∷◌, ◌++◌, done, All, All-drop, done-injective,
}
use mathlib.Core.Path.{subst}
use aetherion_os.Memory.Address.{PhysicalAddress}
use aetherion_os.Memory.FrameAllocator.{
  FrameAllocator, allocate_frame, allocate_frames, deallocate_frame, deallocate_frames,
}
use aetherion_os.Memory.FrameAllocator.Valid.{Starts-Owns}
use aetherion_os.Memory.FrameAllocator.Release.{Releases, deallocate_frame-Releases}
use aetherion_os.Memory.FrameAllocator.Stats.{promise}
use aetherion_os.Memory.FrameAllocator.Held.{World, Live, IsSound, allocate-IsSound, free-IsSound}
use aetherion_os.Memory.FrameAllocator.Runs.{
  frames, Removes, allocate_frames-IsSound, refuse_frames-IsSound, deallocate_frames-IsSound,
}

-- One call. A client may pass an address that it holds, and a run of frames that it holds, from
-- whatever calls it has them.
pub data Step : World → World → Type 0 where
  allocate :
      (w : World) (addr : PhysicalAddress) (fa' : FrameAllocator)
      → allocate_frame w.fa ≡ done (some addr, fa')
      → Step w (record { fa = fa'; held = addr ∷ w.held })
  refuse :
      (w : World) (fa' : FrameAllocator)
      → allocate_frame w.fa ≡ done (none, fa')
      → Step w (record { fa = fa'; held = w.held })
  allocate_run :
      (w : World) (count : ℕ) (addr : PhysicalAddress) (fa' : FrameAllocator)
      → allocate_frames w.fa count ≡ done (some addr, fa')
      → Step w (record { fa = fa'; held = frames addr count ++ w.held })
  refuse_run :
      (w : World) (count : ℕ) (fa' : FrameAllocator)
      → allocate_frames w.fa count ≡ done (none, fa')
      → Step w (record { fa = fa'; held = w.held })
  deallocate :
      (w : World) (before after : List PhysicalAddress) (addr : PhysicalAddress)
      (fa' : FrameAllocator)
      → w.held ≡ before ++ (addr ∷ after)
      → deallocate_frame w.fa addr ≡ done fa'
      → Step w (record { fa = fa'; held = before ++ after })
  deallocate_run :
      (w : World) (rest : List PhysicalAddress) (addr : PhysicalAddress) (count : ℕ)
      (fa' : FrameAllocator)
      → Removes w.held (frames addr count) rest
      → deallocate_frames w.fa addr count ≡ done fa'
      → Step w (record { fa = fa'; held = rest })

pub data Reach (s : World) : World → Type 0 where
  here : Reach s s
  next : {t u : World} → Reach s t → Step t u → Reach s u

free_one-IsSound :
    {w : World} (before after : List PhysicalAddress) (addr : PhysicalAddress)
    (fa' : FrameAllocator)
    → IsSound w
    → w.held ≡ before ++ (addr ∷ after)
    → deallocate_frame w.fa addr ≡ done fa'
    → IsSound (record { fa = fa'; held = before ++ after })
free_one-IsSound {w} before after addr fa' s split e =
    let ((i, at, _), _) =
      All-drop (Live w.fa) before after addr (subst (All (Live w.fa)) split s.live) in
    let (fa'', run, r) = deallocate_frame-Releases s.valid (Starts-Owns at) in
    free-IsSound before after addr i fa' s split (sym at.exact)
      (subst (Releases w.fa i) (done-injective (sym run ∙ e)) r)

Step-IsSound : {t u : World} → Step t u → IsSound t → IsSound u
Step-IsSound (allocate w addr fa' e) s = allocate-IsSound addr fa' s e
Step-IsSound (refuse w fa' e) s = let (same, _) = promise s.valid e in rw same s
Step-IsSound (allocate_run w count addr fa' e) s = allocate_frames-IsSound count addr fa' s e
Step-IsSound (refuse_run w count fa' e) s = refuse_frames-IsSound count fa' s e
Step-IsSound (deallocate w before after addr fa' split e) s =
    free_one-IsSound before after addr fa' s split e
Step-IsSound (deallocate_run w rest addr count fa' out e) s =
    deallocate_frames-IsSound count addr rest fa' s out e

-- Whatever calls of allocate_frame, allocate_frames, deallocate_frame and deallocate_frames a
-- client makes, if it frees only frames that it was given and still holds, singly or a run at once
-- and from whatever calls it has them: the frames it holds stay taken and pairwise different, the
-- allocator stays valid, and its counter is the number of held frames. So no frame is handed out
-- twice.
pub Reach-IsSound : {t u : World} → IsSound t → Reach t u → IsSound u
Reach-IsSound s here = s
Reach-IsSound s (next r st) = Step-IsSound st (Reach-IsSound s r)
