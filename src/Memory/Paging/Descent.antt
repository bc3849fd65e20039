-- ===== src/Memory/Paging/Descent.antt =====
-- The chain of `get_or_create_table` calls in `map_page` (kernel/src/memory/paging.rs).
use aetherion_os.Base.{
  ℕ, ◌≤◌, ◌≡◌, refl, sym, ap, ◌∙◌, Option, none, some, List, [], ◌∷◌, ◌++◌, All, length, arith,
  Returns, Run, ◌>>=◌,
}
use mathlib.Core.Path.{subst}
use aetherion_os.Memory.Address.{PhysicalAddress}
use aetherion_os.Memory.Paging.{
  Memory, Machine, MapperError, out_of_memory, Result, ok, err, get_or_create_table, if_some,
  and_then,
}
use aetherion_os.Memory.Paging.Lookup.{follow, walk, IsIndex}
use aetherion_os.Memory.Paging.Tree.{Place, Places, root_place, below, IsTree, Keeps, KeepsNone}
use aetherion_os.Memory.Paging.Create.{Descended, Created}

-- From machine `w` on, the way along `is` has been made as far as table `t`, at place `p`.
pub record Leads (root : PhysicalAddress) (places : Places) (w : Machine) (is : List ℕ)
    (t : PhysicalAddress) (p : Place) (w' : Machine) : Type 0 where
  pub places' : Places
  pub extends : (s : PhysicalAddress) (q : Place) → places s ≡ some q → places' s ≡ some q
  pub tree : IsTree root w'.memory w'.allocator places'
  pub at : places' t ≡ some p
  pub linked : walk w'.memory is root ≡ some t
  pub kept : Keeps places w.memory w'.memory
  pub kept_none : KeepsNone places w.memory w'.memory
  pub flushed : w'.flushed ≡ w.flushed

through :
    (m : Memory) (is js : List ℕ) (o : Option PhysicalAddress)
    → ((u : PhysicalAddress) → walk m (is ++ js) u ≡ if_some (walk m is u) none (λ x. walk m js x))
    → if_some o none (λ u. walk m (is ++ js) u)
      ≡ if_some (if_some o none (λ u. walk m is u)) none (λ u. walk m js u)
through m is js none rest = refl
through m is js (some u) rest = rest u

pub walk-append :
    (m : Memory) (is js : List ℕ) (s : PhysicalAddress)
    → walk m (is ++ js) s ≡ if_some (walk m is s) none (λ u. walk m js u)
walk-append m [] js s = refl
walk-append m (i ∷ is) js s = through m is js (follow m s i) (walk-append m is js)

pub at_root :
    {root : PhysicalAddress} {places : Places} (w : Machine)
    → IsTree root w.memory w.allocator places
    → Leads root places w [] root root_place w
at_root {places = places} w tree = record {
  places' = places;
  extends = λ s q h. h;
  tree = tree;
  at = tree.root_at;
  linked = refl;
  kept = λ is s q u h all depth e. e;
  kept_none = λ is s q h all full e. e;
  flushed = refl;
}

pub one_down :
    {root : PhysicalAddress} {places : Places} {w w1 w2 : Machine} (is : List ℕ)
    {t t' : PhysicalAddress} {p : Place} (i : ℕ) (l : Leads root places w is t p w1)
    → All IsIndex is
    → length is ≤ 4
    → Descended root l.places' t p i w1 t' w2
    → Leads root places w (is ++ (i ∷ [])) t' (below p i) w2
one_down {root} {w2 = w2} is {t} i l indices short d = record {
  places' = d.places';
  extends = λ s q h. d.extends s q (l.extends s q h);
  tree = d.tree;
  at = d.at;
  linked =
      walk-append w2.memory is (i ∷ []) root
      ∙ ap (λ (o : Option PhysicalAddress). if_some o none (λ u. walk w2.memory (i ∷ []) u))
          (d.kept is root root_place t l.tree.root_at indices (omega (arith, short)) l.linked)
      ∙ d.linked;
  kept = λ js s q u h all depth e.
      d.kept js s q u (l.extends s q h) all depth (l.kept js s q u h all depth e);
  kept_none = λ js s q h all full e.
      d.kept_none js s q (l.extends s q h) all full (l.kept_none js s q h all full e);
  flushed = d.flushed ∙ l.flushed;
}

-- A call of `get_or_create_table` followed by `?`.
pub after_create {ℓ} :
    {B : Type ℓ} {root : PhysicalAddress} {places : Places} {P : Result B × Machine → Type 0}
    (t : PhysicalAddress) (p : Place) (i : ℕ) (w : Machine)
    (k : PhysicalAddress → Machine → Run (Result B × Machine))
    → Returns (get_or_create_table t i w) (Created root places t p i w)
    → ((t' : PhysicalAddress) (w' : Machine)
        → Descended root places t p i w t' w'
        → Returns (k t' w') P)
    → (w.allocator.allocated_frames ≡ w.allocator.total_frames → P (err out_of_memory, w))
    → Returns (get_or_create_table t i w >>= λ r. and_then r k) P
after_create t p i w k ((ok t', w'), run, d) go stop =
    let (a, run', q) = go t' w' d in (a, rw run run', q)
after_create {P = P} t p i w k ((err e, w'), run, (why, same, full)) go stop = (
  (err e, w'),
  rw run refl,
  subst (λ (x : MapperError). P (err x, w')) (sym why)
      (subst (λ (x : Machine). P (err out_of_memory, x)) (sym same) (stop full)),
)
