-- ===== src/Memory/FrameAllocator/Held.antt =====
-- The frames that a client of the frame allocator (kernel/src/memory/frame_allocator.rs) holds, and
-- what one frame that it takes or gives back changes.
use aetherion_os.Base.{
  ℕ, ◌+◌, ◌*◌, ◌≡◌, sym, ap, ◌∙◌, ◌≢◌, Bool, true, false, some, List, [], ◌∷◌, ◌++◌, done, All,
  All-map, All-both, All-drop, length, length-append, arith, ne→==,
}
use mathlib.Core.Path.{subst}
use aetherion_os.Memory.Address.{PhysicalAddress}
use aetherion_os.Memory.Bitmap.View.{bit}
use aetherion_os.Memory.FrameAllocator.{FrameAllocator, allocate_frame}
use aetherion_os.Memory.FrameAllocator.Valid.{IsValid, Starts}
use aetherion_os.Memory.FrameAllocator.Allocate.{Marks}
use aetherion_os.Memory.FrameAllocator.Release.{Releases}
use aetherion_os.Memory.FrameAllocator.Stats.{promise}

pub record World : Type 0 where
  pub fa : FrameAllocator
  pub held : List PhysicalAddress

-- `addr` is the start of a frame that is taken.
abbrev pub Live : FrameAllocator → PhysicalAddress → Type 0
Live fa addr = (i : ℕ) × Starts fa i addr × (bit fa.bitmap i ≡ true)

-- The addresses are pairwise different.
abbrev pub Distinct : List PhysicalAddress → Type 0
Distinct [] = Unit
Distinct (a ∷ l) = All (λ x. a ≢ x) l × Distinct l

-- The frames that the client holds are taken and pairwise different, and they are all the frames
-- that the allocator counts.
pub record IsSound (w : World) : Type 0 where
  pub valid : IsValid w.fa
  pub live : All (Live w.fa) w.held
  pub distinct : Distinct w.held
  pub counted : w.fa.allocated_frames ≡ length w.held

Distinct-drop :
    (xs ys : List ℕ) (a : ℕ)
    → Distinct (xs ++ (a ∷ ys))
    → All (λ x. a ≢ x) (xs ++ ys) × Distinct (xs ++ ys)
Distinct-drop [] ys a h = h
Distinct-drop (x ∷ xs) ys a h =
    let r = Distinct-drop xs ys a h.1 in
    let s = All-drop (λ y. x ≢ y) xs ys a h.0 in (((λ e. s.0 (sym e)), r.0), (s.1, r.1))

-- An allocated address differs from every live one, since its frame was free.
pub fresh-ne :
    {fa : FrameAllocator} (i : ℕ) (x addr : PhysicalAddress)
    → Starts fa i addr
    → bit fa.bitmap i ≡ false
    → Live fa x
    → addr ≢ x
fresh-ne {fa} i x addr s clear (j, sx, taken) same =
    let q : i ≡ j = omega (arith, s.exact, sx.exact, same) in cc (ap (bit fa.bitmap) q)

-- Marking a frame keeps the other live addresses live.
Live-kept :
    {fa fa' : FrameAllocator} (i : ℕ) (v : Bool) (addr x : PhysicalAddress)
    → Marks fa i v fa'
    → Starts fa i addr
    → addr ≢ x
    → Live fa x
    → Live fa' x
Live-kept {fa} i v addr x m s ne (j, sx, taken) =
    let apart : i ≢ j = λ q. ne (omega (arith, s.exact, sx.exact, q)) in
    (
      j,
      record { known = omega (arith, sx.known, m.total); exact = omega (arith, sx.exact, m.start) },
      m.marks j ∙ rw (ne→== i j apart) taken,
    )

Live-new :
    {fa fa' : FrameAllocator} (i : ℕ) (addr : PhysicalAddress)
    → Marks fa i true fa'
    → Starts fa i addr
    → Live fa' addr
Live-new i addr m s = (
  i,
  record { known = omega (arith, s.known, m.total); exact = omega (arith, s.exact, m.start) },
  m.marks i ∙ ground arith,
)

pub allocate-IsSound :
    {w : World} (addr : PhysicalAddress) (fa' : FrameAllocator)
    → IsSound w
    → allocate_frame w.fa ≡ done (some addr, fa')
    → IsSound (record { fa = fa'; held = addr ∷ w.held })
allocate-IsSound {w} addr fa' s e =
    let (valid, counted, (i, at, clear, least, m)) = promise s.valid e in
    let apart =
      All-map (Live w.fa) (λ x. addr ≢ x) w.held (λ x live. fresh-ne i x addr at clear live)
        s.live in
    record {
      valid = valid;
      live = (
        Live-new i addr m at,
        All-map (λ x. (addr ≢ x) × Live w.fa x) (Live fa') w.held
            (λ x both. Live-kept i true addr x m at both.0 both.1)
            (All-both (λ x. addr ≢ x) (Live w.fa) w.held apart s.live),
      );
      distinct = (apart, s.distinct);
      counted = omega (arith, counted, s.counted);
    }

-- Giving back one held frame.
pub free-IsSound :
    {w : World} (before after : List PhysicalAddress) (addr : PhysicalAddress) (i : ℕ)
    (fa' : FrameAllocator)
    → IsSound w
    → w.held ≡ before ++ (addr ∷ after)
    → w.fa.start_address + i * 4096 ≡ addr
    → Releases w.fa i fa'
    → IsSound (record { fa = fa'; held = before ++ after })
free-IsSound {w} before after addr i fa' s split place r =
    let ((j, at, taken), live) =
      All-drop (Live w.fa) before after addr (subst (All (Live w.fa)) split s.live) in
    let same : j ≡ i = omega (arith, at.exact, place) in
    let here : Starts w.fa i addr = subst (λ (k : ℕ). Starts w.fa k addr) same at in
    let (apart, distinct) = Distinct-drop before after addr (subst Distinct split s.distinct) in
    record {
      valid = r.valid;
      live =
          All-map (λ x. (addr ≢ x) × Live w.fa x) (Live fa') (before ++ after)
            (λ x both. Live-kept i false addr x r.marked here both.0 both.1)
            (All-both (λ x. addr ≢ x) (Live w.fa) (before ++ after) apart live);
      distinct = distinct;
      counted = ground (
        arith,
        r.counted,
        ap (bit w.fa.bitmap) same,
        taken,
        s.counted,
        ap length split,
        length-append before (addr ∷ after),
        length-append before after,
      );
    }
