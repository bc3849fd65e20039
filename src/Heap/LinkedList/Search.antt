-- ===== src/Heap/LinkedList/Search.antt =====
-- `find_region` (kernel/src/allocator/linked_list.rs) unlinks the first region that fits.
use aetherion_os.Base.{ℕ, ◌≡◌, refl, sym, ap, Option, none, some, List, [], ◌∷◌, ◌++◌, All}
use mathlib.Core.Option
use mathlib.Core.Path.{subst}
use aetherion_os.Heap.LinkedList.{ListNode, Found, keep, alloc_from_region, find_region}

-- A block of that size and alignment fits none of the regions.
abbrev pub NoneFits : List ListNode → ℕ → ℕ → Type 0
NoneFits l size align = All (λ n. alloc_from_region n size align ≡ none) l

-- The region found stands between regions that do not fit and the rest.
pub record IsFirstFit (l : List ListNode) (size align : ℕ) (f : Found) : Type 0 where
  pub before : List ListNode
  pub after : List ListNode
  pub split : l ≡ before ++ (f.region ∷ after)
  pub remaining : f.remaining ≡ before ++ after
  pub fits : alloc_from_region f.region size align ≡ some f.alloc_start
  pub first : NoneFits before size align

abbrev pub Searched : List ListNode → ℕ → ℕ → Option Found → Type 0
Searched l size align none = NoneFits l size align
Searched l size align (some f) = IsFirstFit l size align f

keep-Searched :
    (n : ListNode) (l : List ListNode) (size align : ℕ) (o : Option Found)
    → alloc_from_region n size align ≡ none
    → Searched l size align o
    → Searched (n ∷ l) size align (Option.map (keep n) o)
keep-Searched n l size align none e s = (e, s)
keep-Searched n l size align (some f) e s = record {
  before = n ∷ s.before;
  after = s.after;
  split = ap (λ (t : List ListNode). n ∷ t) s.split;
  remaining = ap (λ (t : List ListNode). n ∷ t) s.remaining;
  fits = s.fits;
  first = (e, s.first);
}

Searched-front :
    (n : ListNode) (l : List ListNode) (size align : ℕ) (o : Option ℕ)
    → alloc_from_region n size align ≡ o
    → Searched l size align (find_region l size align)
    → Searched (n ∷ l) size align (find_region (n ∷ l) size align)
unfolding find_region
Searched-front n l size align none no_fit s =
    subst
      (λ (o : Option ℕ). Searched (n ∷ l) size align (elim o [
        | some alloc_start ↦ some (record { region = n; alloc_start = alloc_start; remaining = l })
        | none ↦ Option.map (keep n) (find_region l size align)
      ]))
      (sym no_fit) (keep-Searched n l size align (find_region l size align) no_fit s)
Searched-front n l size align (some a) fit s =
    subst
      (λ (o : Option ℕ). Searched (n ∷ l) size align (elim o [
        | some alloc_start ↦ some (record { region = n; alloc_start = alloc_start; remaining = l })
        | none ↦ Option.map (keep n) (find_region l size align)
      ]))
      (sym fit)
      (record { before = []; after = l; split = refl; remaining = refl; fits = fit; first = tt })

pub find_region-Searched :
    (l : List ListNode) (size align : ℕ) → Searched l size align (find_region l size align)
unfolding find_region
find_region-Searched [] size align = tt
find_region-Searched (n ∷ l) size align =
    Searched-front n l size align (alloc_from_region n size align) refl
      (find_region-Searched l size align)
