-- ===== src/Memory/Paging/Tree.antt =====
-- The invariant of the tables that kernel/src/memory/paging.rs builds: every table that can be
-- reached has a place of its own in the tree, and none of them is a free frame.
use aetherion_os.Base.{
  ℕ, suc, ◌+◌, ◌*◌, ◌≤◌, ◌<◌, ◌^◌, ◌≡◌, refl, sym, ap, ◌∙◌, ◌⊎◌, inl, inr, true, false, Bool-cases,
  Option, none, some, List, [], ◌∷◌, All, length, arith, ℕ_discrete,
}
use aetherion_os.Memory.Address.{PhysicalAddress}
use aetherion_os.Memory.Bitmap.View.{bit}
use aetherion_os.Memory.FrameAllocator.{FrameAllocator}
use aetherion_os.Memory.FrameAllocator.Valid.{Starts}
use aetherion_os.Memory.FrameAllocator.Valid
use aetherion_os.Memory.PageTable.{is_present, physical_address}
use aetherion_os.Memory.Paging.{Memory}
use aetherion_os.Memory.Paging.Lookup.{follow, walk, IsIndex}

-- The depth of a table below the root, and the number that the indices on the way to it make up.
pub record Place : Type 0 where
  pub depth : ℕ
  pub prefix : ℕ

abbrev pub Places : Type 0
Places = PhysicalAddress → Option Place

abbrev pub root_place : Place
root_place = record { depth = 0; prefix = 0 }

abbrev pub below : Place → ℕ → Place
below p i = record { depth = suc p.depth; prefix = p.prefix * 512 + i }

pub record IsTree (root : PhysicalAddress) (m : Memory) (fa : FrameAllocator) (places : Places)
    : Type 0 where
  pub allocator : Valid.IsValid fa
  pub low : fa.start_address + fa.total_frames * 4096 ≤ 2 ^ 52
  pub root_at : places root ≡ some root_place
  pub shallow : (t : PhysicalAddress) (p : Place) → places t ≡ some p → p.depth ≤ 3
  pub child :
      (t : PhysicalAddress) (p : Place) (i : ℕ)
      → places t ≡ some p
      → p.depth < 3
      → i < 512
      → is_present ((m t).entries i) ≡ true
      → places (physical_address ((m t).entries i)) ≡ some (below p i)
  pub taken :
      (t : PhysicalAddress) (p : Place) (i : ℕ)
      → places t ≡ some p
      → Starts fa i t
      → bit fa.bitmap i ≡ true

-- The entries of placed tables are the same, but for the one of table `t` at index `i`.
abbrev pub SameElsewhere : Places → Memory → Memory → PhysicalAddress → ℕ → Type 0
SameElsewhere places m m' t i =
    (s : PhysicalAddress) (p : Place) (j : ℕ)
    → places s ≡ some p
    → ¬ ((s ≡ t) × (j ≡ i))
    → (m' s).entries j ≡ (m s).entries j

-- Every walk to a page that found a table or a page finds it still.
abbrev pub Keeps : Places → Memory → Memory → Type 0
Keeps places m m' =
    (is : List ℕ) (s : PhysicalAddress) (p : Place) (u : PhysicalAddress)
    → places s ≡ some p
    → All IsIndex is
    → p.depth + length is ≤ 4
    → walk m is s ≡ some u
    → walk m' is s ≡ some u

-- Every walk to a page that found none finds none still.
abbrev pub KeepsNone : Places → Memory → Memory → Type 0
KeepsNone places m m' =
    (is : List ℕ) (s : PhysicalAddress) (p : Place)
    → places s ≡ some p
    → All IsIndex is
    → p.depth + length is ≡ 4
    → walk m is s ≡ none
    → walk m' is s ≡ none

-- The number that a prefix and the indices after it make up.
abbrev pub number : ℕ → List ℕ → ℕ
number q [] = q
number q (i ∷ is) = number (q * 512 + i) is

-- The walk along `is` from place `p` comes through table `t` and its entry `i`.
pub record Passes (places : Places) (m' : Memory) (t : PhysicalAddress) (i : ℕ) (p : Place)
    (is : List ℕ) (s : PhysicalAddress) : Type 0 where
  pub place : Place
  pub rest : List ℕ
  pub at : places t ≡ some place
  pub full : place.depth + length (i ∷ rest) ≡ 4
  pub same_number : number p.prefix is ≡ number place.prefix (i ∷ rest)
  pub indices : All IsIndex rest
  pub same_walk : walk m' is s ≡ walk m' (i ∷ rest) t

-- A present entry leads on.
pub follow_present :
    (m : Memory) (t : PhysicalAddress) (i : ℕ)
    → is_present ((m t).entries i) ≡ true
    → follow m t i ≡ some (physical_address ((m t).entries i))
follow_present m t i h = rw h refl

pub follow_absent :
    (m : Memory) (t : PhysicalAddress) (i : ℕ)
    → is_present ((m t).entries i) ≡ false
    → follow m t i ≡ none
follow_absent m t i h = rw h refl

pub walk_present :
    (m : Memory) (t : PhysicalAddress) (i : ℕ) (is : List ℕ)
    → is_present ((m t).entries i) ≡ true
    → walk m (i ∷ is) t ≡ walk m is (physical_address ((m t).entries i))
walk_present m t i is h = rw h refl

pub walk_absent :
    (m : Memory) (t : PhysicalAddress) (i : ℕ) (is : List ℕ)
    → is_present ((m t).entries i) ≡ false
    → walk m (i ∷ is) t ≡ none
walk_absent m t i is h = rw h refl

pub none-some : {u : PhysicalAddress} → none ≡ some u → ⊥
none-some e = cc

module _ {root : PhysicalAddress} {m m' : Memory} {fa : FrameAllocator} {places : Places}
    (t : PhysicalAddress) (i : ℕ) (tree : IsTree root m fa places)
    (same : SameElsewhere places m m' t i) (absent : is_present ((m t).entries i) ≡ false) where
  apart_from :
      (s : PhysicalAddress) (j : ℕ) → is_present ((m s).entries j) ≡ true → ¬ ((s ≡ t) × (j ≡ i))
  apart_from s j here q = let (a, b) = q in cc

  step :
      (s : PhysicalAddress) (p : Place) (j : ℕ) (is : List ℕ)
      → places s ≡ some p
      → is_present ((m s).entries j) ≡ true
      → walk m' (j ∷ is) s ≡ walk m' is (physical_address ((m s).entries j))
  step s p j is at here =
      let e = same s p j at (apart_from s j here) in
      walk_present m' s j is (ap is_present e ∙ here)
      ∙ ap (λ (x : ℕ). walk m' is (physical_address x)) e

  pub keeps : Keeps places m m'
  keeps [] s p u at all depth found = found
  keeps (j ∷ []) s p u at all depth found = elim (Bool-cases (is_present ((m s).entries j))) [
    | inl here ↦ step s p j [] at here ∙ sym (walk_present m s j [] here) ∙ found
    | inr gone ↦ let e = walk_absent m s j [] gone in absurd (none-some (sym e ∙ found))
  ]
  keeps (j ∷ k ∷ is) s p u at all depth found = elim (Bool-cases (is_present ((m s).entries j))) [
    | inl here ↦
        step s p j (k ∷ is) at here
        ∙ keeps (k ∷ is) (physical_address ((m s).entries j)) (below p j) u
            (tree.child s p j at (omega (arith, depth)) all.0 here) all.1 (omega (arith, depth))
            (sym (walk_present m s j (k ∷ is) here) ∙ found)
    | inr gone ↦ let e = walk_absent m s j (k ∷ is) gone in absurd (none-some (sym e ∙ found))
  ]

  here_Passes :
      (s : PhysicalAddress) (p : Place) (j : ℕ) (is : List ℕ)
      → places s ≡ some p
      → All IsIndex (j ∷ is)
      → p.depth + length (j ∷ is) ≡ 4
      → s ≡ t
      → j ≡ i
      → Passes places m' t i p (j ∷ is) s
  here_Passes s p j is at all full a b = record {
    place = p;
    rest = is;
    at = ap places (sym a) ∙ at;
    full = full;
    same_number = ap (λ (x : ℕ). number (p.prefix * 512 + x) is) b;
    indices = all.1;
    same_walk = ap (λ (x : ℕ). walk m' (j ∷ is) x) a ∙ ap (λ (x : ℕ). walk m' (x ∷ is) t) b;
  }

  stays_absent :
      (s : PhysicalAddress) (p : Place) (j : ℕ) (is : List ℕ)
      → places s ≡ some p
      → All IsIndex (j ∷ is)
      → p.depth + length (j ∷ is) ≡ 4
      → is_present ((m s).entries j) ≡ false
      → (walk m' (j ∷ is) s ≡ none) ⊎ Passes places m' t i p (j ∷ is) s
  stays_absent s p j is at all full gone = elim (ℕ_discrete s t) [
    | yes a ↦ elim (ℕ_discrete j i) [
      | yes b ↦ inr (here_Passes s p j is at all full a b)
      | no b ↦ inl (walk_absent m' s j is (ap is_present (same s p j at (λ q. b q.1)) ∙ gone))
    ]
    | no a ↦ inl (walk_absent m' s j is (ap is_present (same s p j at (λ q. a q.0)) ∙ gone))
  ]

  descend :
      (s : PhysicalAddress) (p : Place) (j : ℕ) (is : List ℕ)
      → places s ≡ some p
      → is_present ((m s).entries j) ≡ true
      → (walk m' is (physical_address ((m s).entries j)) ≡ none)
        ⊎ Passes places m' t i (below p j) is (physical_address ((m s).entries j))
      → (walk m' (j ∷ is) s ≡ none) ⊎ Passes places m' t i p (j ∷ is) s
  descend s p j is at here (inl e) = inl (step s p j is at here ∙ e)
  descend s p j is at here (inr q) = inr (record {
    place = q.place;
    rest = q.rest;
    at = q.at;
    full = q.full;
    same_number = q.same_number;
    indices = q.indices;
    same_walk = step s p j is at here ∙ q.same_walk;
  })

  -- A walk to a page that found none finds none still, or it comes through the changed entry.
  pub none_or_Passes :
      (is : List ℕ) (s : PhysicalAddress) (p : Place)
      → places s ≡ some p
      → All IsIndex is
      → p.depth + length is ≡ 4
      → walk m is s ≡ none
      → (walk m' is s ≡ none) ⊎ Passes places m' t i p is s
  none_or_Passes [] s p at all full e = absurd (none-some (sym e))
  none_or_Passes (j ∷ []) s p at all full e = elim (Bool-cases (is_present ((m s).entries j))) [
    | inl here ↦ absurd (none-some (sym e ∙ walk_present m s j [] here))
    | inr gone ↦ stays_absent s p j [] at all full gone
  ]
  none_or_Passes (j ∷ k ∷ is) s p at all full e = elim (Bool-cases (is_present ((m s).entries j))) [
    | inl here ↦ descend s p j (k ∷ is) at here (
        none_or_Passes (k ∷ is) (physical_address ((m s).entries j)) (below p j)
          (tree.child s p j at (omega (arith, full)) all.0 here) all.1 (omega (arith, full))
          (sym (walk_present m s j (k ∷ is) here) ∙ e))
    | inr gone ↦ stays_absent s p j (k ∷ is) at all full gone
  ]
