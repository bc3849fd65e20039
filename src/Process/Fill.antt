-- ===== src/Process/Fill.antt =====
-- Many calls of `create_process` (kernel/src/process/mod.rs), from boot on.
use aetherion_os.Base.{
  ℕ, zero, suc, ◌+◌, ◌-◌, ◌%◌, ◌≤◌, ◌<◌, ◌≡◌, ◌≢◌, refl, sym, ap, ◌∙◌, true, false, leb, ◌==◌,
  if◌then◌else◌, Option, none, some, List, [], ◌∷◌, length, arith, ℕ_discrete,
}
use mathlib.Core.Path.{subst}
use aetherion_os.Base.Word.{usize_mod}
use aetherion_os.Process.{Pid, Process, System, boot, is_some}
use aetherion_os.Process.Table.{
  IsValid, Request, create, made, Created, create_process-Created, keeps-IsValid,
}

-- The requests, one after the other.
abbrev pub run : System → List Request → List (Option Pid) × System
run s [] = ([], s)
run s (r ∷ rs) = let first = create s r in let rest = run first.1 rs in (first.0 ∷ rest.0, rest.1)

-- The place of slot `i` in the order in which slots are filled: slot 0 is the last.
abbrev turn : ℕ → ℕ
turn i = if i == 0 then 256 else i

-- After `n` requests the slots whose turn is past are taken, and no other.
record After (n : ℕ) (s : System) : Type 0 where
  pub next : s.next_pid ≡ n + 1
  pub taken : (i : ℕ) → i < 256 → is_some (s.process_table i) ≡ leb (turn i) n
  pub valid : IsValid s

-- What `n` requests after the first `k` return: the next identifiers, up to 256, and then errors.
abbrev pub answers : ℕ → ℕ → List (Option Pid)
answers k zero = []
answers k (suc n) = (if leb 256 k then none else some (k + 1)) ∷ answers (k + 1) n

is_some-none : (o : Option Process) → o ≡ none → is_some o ≡ false
unfolding is_some
is_some-none o e = subst (λ (x : Option Process). is_some x ≡ false) (sym e) refl

is_some-some : (o : Option Process) (p : Process) → o ≡ some p → is_some o ≡ true
unfolding is_some
is_some-some o p e = subst (λ (x : Option Process). is_some x ≡ true) (sym e) refl

nothing : {p : Process} → none ≡ some p → ⊥
nothing e = cc

turn_of_next : (k : ℕ) → leb (turn ((k + 1) % 256)) k ≡ leb 256 k
turn_of_next k = ground arith

turn_here : (k : ℕ) → k < 256 → leb (turn ((k + 1) % 256)) (k + 1) ≡ true
turn_here k h = ground arith

turn_away :
    (k i : ℕ) → k < 256 → i < 256 → i ≢ (k + 1) % 256 → leb (turn i) k ≡ leb (turn i) (k + 1)
turn_away k i h lt ne = ground arith

turn_late : (k i : ℕ) → 256 ≤ k → i < 256 → leb (turn i) k ≡ leb (turn i) (k + 1)
turn_late k i h lt = ground arith

After-request :
    (k : ℕ) (s : System) (r : Request) (o : Option Pid × System)
    → k < usize_mod - 2
    → After k s
    → Created s r o
    → (o.0 ≡ (if leb 256 k then none else some (k + 1))) × After (k + 1) o.1
After-request k s r (some pid, s') h a (same, free, here, away, next) =
    let index : pid % 256 ≡ (k + 1) % 256 = omega (arith, same, a.next) in
    let clear : leb 256 k ≡ false =
      sym (turn_of_next k)
      ∙ ap (λ (x : ℕ). leb (turn x) k) (sym index)
      ∙ sym (a.taken (pid % 256) (omega arith))
      ∙ is_some-none (s.process_table (pid % 256)) free in
    let early : k < 256 = ground (arith, clear) in
    (
      rw clear (ap some (omega (arith, same, a.next))),
      record {
        next = omega (arith, next, a.next);
        taken = λ i lt. elim (ℕ_discrete i (pid % 256)) [
          | yes e ↦
              ap (λ (x : ℕ). is_some (s'.process_table x)) e
              ∙ is_some-some (s'.process_table (pid % 256)) (made pid r) here
              ∙ sym (turn_here k early)
              ∙ ap (λ (x : ℕ). leb (turn x) (k + 1)) (sym index ∙ sym e)
          | no ne ↦
              ap is_some (away i ne)
              ∙ a.taken i lt
              ∙ turn_away k i early lt (λ e. ne (e ∙ sym index))
        ];
        valid =
            keeps-IsValid s r (some pid, s') (omega (arith, h, a.next)) a.valid
              (same, free, here, away, next);
      },
    )
After-request k s r (none, s') h a ((p, used), same, next) =
    let index : s.next_pid % 256 ≡ (k + 1) % 256 = omega (arith, a.next) in
    let late : leb 256 k ≡ true =
      sym (turn_of_next k)
      ∙ ap (λ (x : ℕ). leb (turn x) k) (sym index)
      ∙ sym (a.taken (s.next_pid % 256) (omega arith))
      ∙ is_some-some (s.process_table (s.next_pid % 256)) p used in
    (
      rw late refl,
      record {
        next = omega (arith, next, a.next);
        taken = λ i lt.
            ap (λ (t : ℕ → Option Process). is_some (t i)) same
            ∙ a.taken i lt
            ∙ turn_late k i (ground (arith, late)) lt;
        valid =
            keeps-IsValid s r (none, s') (omega (arith, h, a.next)) a.valid ((p, used), same, next);
      },
    )

run-After :
    (rs : List Request) (k : ℕ) (s : System)
    → k + length rs < usize_mod - 2
    → After k s
    → ((run s rs).0 ≡ answers k (length rs)) × After (k + length rs) (run s rs).1
run-After [] k s h a = (refl, subst (λ (x : ℕ). After x s) (omega arith) a)
run-After (r ∷ rs) k s h a =
    let one =
      After-request k s r (create s r) (omega (arith, h)) a
        (create_process-Created s r (omega (arith, h, a.next))) in
    let rest = run-After rs (k + 1) (create s r).1 (omega (arith, h)) one.1 in
    (
      ap (λ (x : Option Pid). x ∷ (run (create s r).1 rs).0) one.0
          ∙ ap (λ (l : List (Option Pid)). (if leb 256 k then none else some (k + 1)) ∷ l) rest.0,
      subst (λ (x : ℕ). After x (run (create s r).1 rs).1) (omega arith) rest.1,
    )

boot-After : After 0 boot
unfolding boot is_some
boot-After = record {
  next = refl;
  taken = λ i lt. ground arith;
  valid = λ i p lt at. absurd (nothing at);
}

-- From boot on, and whatever is asked for in fewer than 2^64 - 2 requests, the first 256 requests
-- get the identifiers 1, 2, 3 and so on, each process stands in the slot of its identifier, and
-- every later request is refused: no slot is ever given up.
pub create_processes :
    (rs : List Request)
    → length rs < usize_mod - 2
    → ((run boot rs).0 ≡ answers 0 (length rs)) × IsValid (run boot rs).1
create_processes rs h =
    let r = run-After rs 0 boot (omega (arith, h)) boot-After in (r.0, r.1.valid)
