-- ===== src/Memory/FrameAllocator/Runs.antt =====
-- Runs of frames that a client takes and gives back at once: `allocate_frames` and
-- `deallocate_frames` (kernel/src/memory/frame_allocator.rs).
use aetherion_os.Base.{
  ℕ, zero, suc, ◌+◌, ◌-◌, ◌*◌, ◌≤◌, ◌<◌, ◌≡◌, refl, sym, ap, ◌∙◌, ◌≢◌, none, some, List, [], ◌∷◌,
  ◌++◌, done, ◌>>=◌, All, All-map, All-append, All-drop, length, length-append, arith,
  done-injective, Option, Run,
}
use mathlib.Core.Path.{subst}
use aetherion_os.Base.Word.{add_usize}
use aetherion_os.Memory.Address.{PhysicalAddress}
use aetherion_os.Memory.FrameAllocator.{
  FrameAllocator, allocate_frames, deallocate_frames, release_range, frame_index,
}
use aetherion_os.Memory.FrameAllocator.Valid.{Starts, Starts-Owns, frame_index-Owns}
use aetherion_os.Memory.FrameAllocator.Contiguous.{
  AllocatesRun, allocate_frames-AllocatesRun, allocate_frames-zero,
}
use aetherion_os.Memory.FrameAllocator.Release.{release-Releases}
use aetherion_os.Memory.FrameAllocator.Held.{World, Live, Distinct, IsSound, fresh-ne, free-IsSound}

-- The addresses of `n` frames in a row.
abbrev pub frames : PhysicalAddress → ℕ → List PhysicalAddress
frames addr zero = []
frames addr (suc n) = addr ∷ frames (addr + 4096) n

-- `rest` is what is left of the first list without the addresses of the second, in any order.
abbrev pub Removes : List PhysicalAddress → List PhysicalAddress → List PhysicalAddress → Type 0
Removes held [] rest = held ≡ rest
Removes held (a ∷ l) rest =
    (before : List PhysicalAddress) × (after : List PhysicalAddress) × (held
      ≡ before ++ (a ∷ after))
    × Removes (before ++ after) l rest

Distinct-append :
    (xs ys : List ℕ)
    → Distinct xs
    → Distinct ys
    → All (λ x. All (λ y. x ≢ y) ys) xs
    → Distinct (xs ++ ys)
Distinct-append [] ys dx dy apart = dy
Distinct-append (x ∷ xs) ys dx dy apart =
    (All-append (λ y. x ≢ y) xs ys dx.0 apart.0, Distinct-append xs ys dx.1 dy apart.1)

length-frames : (n addr : ℕ) → length (frames addr n) ≡ n
length-frames zero addr = refl
length-frames (suc n) addr = omega (arith, length-frames n (addr + 4096))

frames_above : (n a addr : ℕ) → a < addr → All (λ x. a ≢ x) (frames addr n)
frames_above zero a addr h = tt
frames_above (suc n) a addr h = (λ e. omega arith, frames_above n a (addr + 4096) (omega arith))

frames-Distinct : (n addr : ℕ) → Distinct (frames addr n)
frames-Distinct zero addr = tt
frames-Distinct (suc n) addr =
    (frames_above n addr (addr + 4096) (omega arith), frames-Distinct n (addr + 4096))

-- What holds of each frame from `i` on holds of the addresses of a run that starts there.
All-frames :
    {fa : FrameAllocator} (P : PhysicalAddress → Type 0) (n i addr : ℕ)
    → Starts fa i addr
    → i + n ≤ fa.total_frames
    → ((j a : ℕ) → i ≤ j → j < i + n → Starts fa j a → P a)
    → All P (frames addr n)
All-frames P zero i addr s fits h = tt
All-frames {fa} P (suc zero) i addr s fits h = (h i addr (omega arith) (omega arith) s, tt)
All-frames {fa} P (suc (suc n)) i addr s fits h =
    let next : Starts fa (i + 1) (addr + 4096) = record {
      known = omega arith;
      exact = omega (arith, s.exact);
    } in
    (
      h i addr (omega arith) (omega arith) s,
      All-frames P (suc n) (i + 1) (addr + 4096) next (omega arith)
          (λ j a lo hi. h j a (omega arith) (omega arith)),
    )

allocated_run-IsSound :
    {w : World} (count : ℕ) (addr : PhysicalAddress) (fa' : FrameAllocator)
    → IsSound w
    → AllocatesRun w.fa count (some addr, fa')
    → IsSound (record { fa = fa'; held = frames addr count ++ w.held })
allocated_run-IsSound {w} count addr fa' s
      (valid, start, total, grown, (i, at, fits, free, _, reads)) =
    let moved : (j a : ℕ) → Starts w.fa j a → Starts fa' j a = λ j a t. record {
      known = omega (arith, t.known, total);
      exact = omega (arith, t.exact, start);
    } in
    record {
      valid = valid;
      live =
          All-append (Live fa') (frames addr count) w.held
            (All-frames (Live fa') count i addr at fits
              (λ j a lo hi t. (j, moved j a t, reads j ∙ ground arith)))
            (All-map (Live w.fa) (Live fa') w.held
              (λ x (j, t, taken). (j, moved j x t, reads j ∙ ground (arith, taken))) s.live);
      distinct =
          Distinct-append (frames addr count) w.held (frames-Distinct count addr) s.distinct (
            All-frames (λ x. All (λ y. x ≢ y) w.held) count i addr at fits
              (λ j a lo hi t.
                All-map (Live w.fa) (λ y. a ≢ y) w.held
                  (λ y live. fresh-ne j y a t (free j lo hi) live) s.live));
      counted = omega (
        arith,
        grown,
        s.counted,
        length-frames count addr,
        length-append (frames addr count) w.held,
      );
    }

pub allocate_frames-IsSound :
    {w : World} (count : ℕ) (addr : PhysicalAddress) (fa' : FrameAllocator)
    → IsSound w
    → allocate_frames w.fa count ≡ done (some addr, fa')
    → IsSound (record { fa = fa'; held = frames addr count ++ w.held })
allocate_frames-IsSound {w} zero addr fa' s e =
    let no = done-injective (sym (allocate_frames-zero w.fa) ∙ e) in absurd (cc)
allocate_frames-IsSound {w} (suc count) addr fa' s e =
    let (r, run, promise) = allocate_frames-AllocatesRun (suc count) s.valid (omega arith) in
    allocated_run-IsSound (suc count) addr fa' s
      (subst (AllocatesRun w.fa (suc count)) (done-injective (sym run ∙ e)) promise)

pub refuse_frames-IsSound :
    {w : World} (count : ℕ) (fa' : FrameAllocator)
    → IsSound w
    → allocate_frames w.fa count ≡ done (none, fa')
    → IsSound (record { fa = fa'; held = w.held })
refuse_frames-IsSound {w} zero fa' s e =
    let same : w.fa ≡ fa' =
      ap (λ (r : Option PhysicalAddress × FrameAllocator). r.1)
        (done-injective (sym (allocate_frames-zero w.fa) ∙ e)) in
    rw (sym same) s
refuse_frames-IsSound {w} (suc count) fa' s e =
    let (r, run, promise) = allocate_frames-AllocatesRun (suc count) s.valid (omega arith) in
    let (same, _) = subst (AllocatesRun w.fa (suc count)) (done-injective (sym run ∙ e)) promise in
    rw same s

Removes-All :
    (P : PhysicalAddress → Type 0) (items held rest : List PhysicalAddress)
    → Removes held items rest
    → All P held
    → All P items
Removes-All P [] held rest out h = tt
Removes-All P (a ∷ items) held rest (before, after, split, out) h =
    let r = All-drop P before after a (subst (All P) split h) in
    (r.0, Removes-All P items (before ++ after) rest out r.1)

-- A run of live frames ends in the region.
frames_inside :
    {fa : FrameAllocator} (n i addr : ℕ)
    → Starts fa i addr
    → All (Live fa) (frames addr (suc n))
    → i + suc n ≤ fa.total_frames
frames_inside zero i addr s h = omega (arith, s.known)
frames_inside {fa} (suc n) i addr s (_, ((j, t, taken), h)) =
    let same : j ≡ i + 1 = omega (arith, s.exact, t.exact) in
    omega (
      arith,
      frames_inside n (i + 1) (addr + 4096) (subst (λ (k : ℕ). Starts fa k (addr + 4096)) same t)
          ((j, t, taken), h),
    )

release_range-IsSound :
    (n i addr : ℕ) {w : World} (rest : List PhysicalAddress) (fa' : FrameAllocator)
    → IsSound w
    → Removes w.held (frames addr n) rest
    → w.fa.start_address + i * 4096 ≡ addr
    → release_range w.fa n i ≡ done fa'
    → IsSound (record { fa = fa'; held = rest })
unfolding release_range
release_range-IsSound zero i addr {w} rest fa' s out place e =
    rw (sym (done-injective e), sym out) s
release_range-IsSound (suc n) i addr {w} rest fa' s (before, after, split, out) place e =
    let (fa1, run, r) = release-Releases i s.valid in
    release_range-IsSound n (i + 1) (addr + 4096) rest fa'
      (free-IsSound before after addr i fa1 s split place r) out
      (omega (arith, place, r.marked.start))
      (ap (λ (m : Run FrameAllocator). m >>= λ fa. release_range fa n (i + 1)) (sym run) ∙ e)

pub deallocate_frames-IsSound :
    {w : World} (count : ℕ) (addr : PhysicalAddress) (rest : List PhysicalAddress)
    (fa' : FrameAllocator)
    → IsSound w
    → Removes w.held (frames addr count) rest
    → deallocate_frames w.fa addr count ≡ done fa'
    → IsSound (record { fa = fa'; held = rest })
unfolding deallocate_frames release_range
deallocate_frames-IsSound {w} zero addr rest fa' s out e =
    let idx = frame_index w.fa addr in
    let rounds : add_usize idx 0 - idx ≡ 0 = omega arith in
    let same : done w.fa ≡ done fa' = ap (λ (n : ℕ). release_range w.fa n idx) (sym rounds) ∙ e in
    rw (sym (done-injective same), sym out) s
deallocate_frames-IsSound {w} (suc n) addr rest fa' s out e =
    let live = Removes-All (Live w.fa) (frames addr (suc n)) w.held rest out s.live in
    let (i, at, taken) = live.0 in
    let inside = frames_inside n i addr at live in
    let index = frame_index-Owns s.valid.region (Starts-Owns at) in
    let rounds : add_usize i (suc n) - i ≡ suc n = omega (arith, inside, s.valid.region.fits) in
    release_range-IsSound (suc n) i addr rest fa' s out (sym at.exact) (
      ap (λ (k : ℕ). release_range w.fa k i) (sym rounds)
      ∙ ap (λ (k : ℕ). release_range w.fa (add_usize k (suc n) - k) k) (sym index)
      ∙ e)
