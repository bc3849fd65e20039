-- ===== src/Heap/Layout.antt =====
-- What a caller of the heap passes, and what it gets back.
use aetherion_os.Base.{ℕ, ◌+◌, ◌≤◌, ◌<◌, ◌^◌, List, [], ◌∷◌, All}
use aetherion_os.Base.Align.{IsAlign}

pub record Layout : Type 0 where
  pub size : ℕ
  pub align : ℕ

-- What `core::alloc::Layout` promises: the alignment is a power of two, and the size, rounded up
-- to it, is at most `isize::MAX`.
pub record IsLayout (l : Layout) : Type 0 where
  pub align : IsAlign l.align
  pub size : l.size + l.align ≤ 2 ^ 63

-- A span of memory: its first address and the address after its last.
pub record Span : Type 0 where
  pub lo : ℕ
  pub hi : ℕ

-- Two spans have no address in common. An empty span lies apart from every other.
abbrev pub Apart : Span → Span → Type 0
Apart s t = (a : ℕ) → s.lo ≤ a → a < s.hi → t.lo ≤ a → a < t.hi → ⊥

abbrev pub AllApart : List Span → Type 0
AllApart [] = Unit
AllApart (s ∷ l) = All (Apart s) l × AllApart l
