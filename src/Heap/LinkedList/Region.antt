-- ===== src/Heap/LinkedList/Region.antt =====
-- One region of kernel/src/allocator/linked_list.rs: when a block fits, and the block size.
use aetherion_os.Base.{
  ℕ, zero, suc, sym, ap, none, List, All, dec_lt, ◌+◌, ◌*◌, ◌/◌, ◌%◌, ◌^◌, ◌≤◌, ◌<◌, ◌≡◌, refl, ◌⊎◌,
  max, some, arith,
}
use mathlib.Core.Path.{subst}
use native.Mathlib.Nat.{pow-suc, div-add-mod', mul-mod_left}
use aetherion_os.Base.Align.{align_up, align_up_lem, IsAlign, IsAlign-pos, multiples_apart}
use aetherion_os.Heap.Layout.{Layout}
use aetherion_os.Heap.LinkedList.{ListNode, alloc_from_region, block_size}

-- A region that can stand in the list: room for a node, aligned for it, in the lower half of the
-- address space, and not at address 0.
pub record IsRegion (n : ListNode) : Type 0 where
  pub aligned : n.addr % 8 ≡ 0
  pub room : 16 ≤ n.size
  pub above : 0 < n.addr
  pub low : n.addr + n.size ≤ 2 ^ 63

node-IsAlign : IsAlign 8
node-IsAlign = record { log = 3; small = omega arith; pow = refl }

scaled_by_eight : (k a : ℕ) → a % (2 ^ suc (suc (suc k))) ≡ 0 → a % 8 ≡ 0
scaled_by_eight k a h =
    let p : 2 ^ suc (suc (suc k)) ≡ 2 ^ k * 8 =
      omega (arith, pow-suc 2 k, pow-suc 2 (suc k), pow-suc 2 (suc (suc k))) in
    let q = a / 2 ^ suc (suc (suc k)) in
    let e : a ≡ q * 2 ^ k * 8 =
      omega (arith, div-add-mod' a (2 ^ suc (suc (suc k))), h, ap (λ (t : ℕ). q * t) p) in
    subst (λ (t : ℕ). t % 8 ≡ 0) (sym e) (mul-mod_left (q * 2 ^ k) 8)

-- Rounding a node's address up, to whatever power of two, keeps it aligned for a node.
round_keeps_node :
    (addr align log : ℕ)
    → log ≤ 63
    → align ≡ 2 ^ log
    → addr % 8 ≡ 0
    → addr ≤ 2 ^ 63
    → align_up addr align % 8 ≡ 0
round_keeps_node addr align log s p h low = go log s p
  where
    up :
        (a : IsAlign align)
        → (addr ≤ align_up addr align)
          × (align_up addr align < addr + align)
          × (align_up addr align % align ≡ 0)
    up a = align_up_lem addr a (omega (arith, IsAlign-pos a))

    go : (log : ℕ) → log ≤ 63 → align ≡ 2 ^ log → align_up addr align % 8 ≡ 0
    go zero s p =
        let u = up (record { log = zero; small = s; pow = p }) in
        let m = subst (λ (t : ℕ). align_up addr align % t ≡ 0) p u.2 in
        omega (arith, u.0, u.1, m, p, h)
    go (suc zero) s p =
        let u = up (record { log = suc zero; small = s; pow = p }) in
        let m = subst (λ (t : ℕ). align_up addr align % t ≡ 0) p u.2 in
        omega (arith, u.0, u.1, m, p, h)
    go (suc (suc zero)) s p =
        let u = up (record { log = suc (suc zero); small = s; pow = p }) in
        let m = subst (λ (t : ℕ). align_up addr align % t ≡ 0) p u.2 in
        omega (arith, u.0, u.1, m, p, h)
    go (suc (suc (suc k))) s p =
        let u = up (record { log = suc (suc (suc k)); small = s; pow = p }) in
        scaled_by_eight k _ (subst (λ (t : ℕ). align_up addr align % t ≡ 0) p u.2)

-- A block of `size` bytes fits region `n` at `a`, its first aligned address: it lies inside, and what is left behind it is
-- nothing or room for a node.
pub record Fits (n : ListNode) (size align a : ℕ) : Type 0 where
  pub aligned : a % align ≡ 0
  pub node_aligned : a % 8 ≡ 0
  pub from : n.addr ≤ a
  pub start : a < n.addr + align
  pub to : a + size ≤ n.addr + n.size
  pub left : (a + size ≡ n.addr + n.size) ⊎ (a + size + 16 ≤ n.addr + n.size)

pub alloc_from_region-Fits :
    {n : ListNode} (size : ℕ) {align a : ℕ}
    → IsRegion n
    → IsAlign align
    → size ≤ 2 ^ 63
    → alloc_from_region n size align ≡ some a
    → Fits n size align a
unfolding alloc_from_region
alloc_from_region-Fits {n} size {align} {a} r al hs e =
    let up = align_up_lem n.addr al (omega (arith, IsAlign-pos al, r.low, r.room)) in
    let node =
      round_keeps_node n.addr align al.log al.small al.pow r.aligned (omega (arith, r.low)) in
    record {
      aligned = ground (arith, up.2);
      node_aligned = ground (arith, node);
      from = ground (arith, up.0);
      start = ground (arith, up.1);
      to = ground (arith, r.low);
      left = ground (arith, r.low);
    }

-- A block at the first aligned address of the region ends behind the region, or leaves a rest that is
-- too small for a node.
abbrev pub CannotHold : ListNode → ℕ → ℕ → Type 0
CannotHold n size align =
    (q : ℕ)
    → n.addr ≤ q
    → q < n.addr + align
    → q % align ≡ 0
    → (n.addr + n.size < q + size)
      ⊎ ((q + size < n.addr + n.size) × (n.addr + n.size < q + size + 16))

abbrev pub NoneHolds : List ListNode → ℕ → ℕ → Type 0
NoneHolds l size align = All (λ n. CannotHold n size align) l

-- There is one multiple of the alignment among that many addresses.
same_multiple :
    (align x p q : ℕ)
    → x ≤ p
    → p < x + align
    → p % align ≡ 0
    → x ≤ q
    → q < x + align
    → q % align ≡ 0
    → p ≡ q
same_multiple align x p q lo hi mp lo' hi' mq = elim (dec_lt p q) [
  | yes lt ↦ absurd (omega (arith, multiples_apart align q p mq mp lt))
  | no ge ↦ elim (dec_lt q p) [
    | yes gt ↦ absurd (omega (arith, multiples_apart align p q mp mq gt))
    | no le ↦ omega arith
  ]
]

pub alloc_from_region-CannotHold :
    {n : ListNode} (size : ℕ) {align : ℕ}
    → IsRegion n
    → IsAlign align
    → size ≤ 2 ^ 63
    → alloc_from_region n size align ≡ none
    → CannotHold n size align
unfolding alloc_from_region
alloc_from_region-CannotHold {n} size {align} r al hs e q lo hi m =
    let up = align_up_lem n.addr al (omega (arith, IsAlign-pos al, r.low, r.room)) in
    let same = same_multiple align n.addr (align_up n.addr align) q up.0 up.1 up.2 lo hi m in
    ground (arith, r.low, same)

-- The least multiple of 8 that has room for what is asked for and for a node.
pub record IsBlockSize (l : Layout) (n : ℕ) : Type 0 where
  pub multiple : n % 8 ≡ 0
  pub room : max l.size 16 ≤ n
  pub least : n < max l.size 16 + 8

-- The block size has room for a node, is a multiple of its alignment, and is less than 8 bytes
-- longer than what is asked for or needed for a node.
pub block_size_lem :
    (l : Layout)
    → l.size ≤ 2 ^ 63
    → (block_size l % 8 ≡ 0)
      × (16 ≤ block_size l)
      × (l.size ≤ block_size l)
      × (block_size l < max l.size 16 + 8)
unfolding block_size
block_size_lem l h =
    let u = align_up_lem (max l.size 16) node-IsAlign (omega arith) in
    (u.2, omega (arith, u.0), omega (arith, u.0), u.1)

pub block_size-IsBlockSize : (l : Layout) → l.size ≤ 2 ^ 63 → IsBlockSize l (block_size l)
block_size-IsBlockSize l h =
    let s = block_size_lem l h in
    record { multiple = s.0; room = omega (arith, s.1, s.2); least = s.3 }
