-- ===== src/Process/Table.antt =====
-- `create_process` (kernel/src/process/mod.rs).
use aetherion_os.Base.{
  ℕ, ◌+◌, ◌-◌, ◌%◌, ◌<◌, ◌≡◌, ◌≢◌, refl, sym, ap, ◌∙◌, Bool, true, false, ◌==◌, if◌then◌else◌,
  Option, none, some, arith, ℕ_discrete, eq→==, ne→==,
}
use mathlib.Core.Path.{subst}
use aetherion_os.Base.Word.{usize_mod, add_usize}
use aetherion_os.Process.{
  Pid, Process, System, allocate_pid, is_some, create_process, new_user, new_kernel,
}

-- Each process stands in the slot of its identifier, which has been given out.
abbrev pub IsValid : System → Type 0
IsValid s =
    (i : ℕ) (p : Process)
    → i < 256
    → s.process_table i ≡ some p
    → (p.pid % 256 ≡ i) × (p.pid < s.next_pid)

some_injective : {p q : Process} → some p ≡ some q → p ≡ q
some_injective e = cc

pub no_false : false ≡ true → ⊥
no_false e = cc

-- What `create_process` asks for.
pub record Request : Type 0 where
  pub entry : ℕ
  pub stack : ℕ
  pub is_user : Bool

abbrev pub create : System → Request → Option Pid × System
create s r = create_process s r.entry r.stack r.is_user

-- The process that a request makes.
abbrev pub made : Pid → Request → Process
made pid r = if r.is_user then new_user pid r.entry r.stack 0 else new_kernel pid r.entry r.stack

made-pid : (pid : Pid) (r : Request) → (made pid r).pid ≡ pid
unfolding new_user new_kernel
made-pid pid r = ground arith

-- The slot was free and has the new process, or it was not, and the table is as it was. The
-- identifier is spent in both cases.
abbrev pub Created : System → Request → Option Pid × System → Type 0
Created s r (some pid, s') =
    (pid ≡ s.next_pid)
    × (s.process_table (pid % 256) ≡ none)
    × (s'.process_table (pid % 256) ≡ some (made pid r))
    × ((i : ℕ) → i ≢ pid % 256 → s'.process_table i ≡ s.process_table i)
    × (s'.next_pid ≡ s.next_pid + 1)
Created s r (none, s') =
    ((p : Process) × (s.process_table (s.next_pid % 256) ≡ some p))
    × (s'.process_table ≡ s.process_table)
    × (s'.next_pid ≡ s.next_pid + 1)

entered : System → Request → System
entered s r = record {
  process_table =
      λ i. if i == s.next_pid % 256 then some (made s.next_pid r) else s.process_table i;
  next_pid = add_usize s.next_pid 1;
}

create_free :
    (s : System) (r : Request)
    → s.process_table (s.next_pid % 256) ≡ none
    → create s r ≡ (some s.next_pid, entered s r)
unfolding create_process allocate_pid is_some entered
create_free s r e = rw (e, create_process, is_some) refl

create_taken :
    (s : System) (r : Request) (p : Process)
    → s.process_table (s.next_pid % 256) ≡ some p
    → create s r ≡ (none, record s { next_pid = add_usize s.next_pid 1 })
unfolding create_process allocate_pid is_some
create_taken s r p e = rw (e, create_process, is_some) refl

create_at :
    (s : System) (r : Request) (o : Option Process)
    → s.next_pid < usize_mod - 1
    → s.process_table (s.next_pid % 256) ≡ o
    → Created s r (create s r)
unfolding entered
create_at s r none h e = subst (Created s r) (sym (create_free s r e)) (
  refl,
  e,
  rw (eq→== (s.next_pid % 256) (s.next_pid % 256) refl) refl,
  λ i ne. rw (ne→== i (s.next_pid % 256) ne) refl,
  omega (arith, h),
)
create_at s r (some p) h e =
    subst (Created s r) (sym (create_taken s r p e)) ((p, e), refl, omega (arith, h))

-- Below the largest identifiers create_process takes the next identifier. It enters the new
-- process in the slot of that identifier if it was free, and otherwise leaves the table as it was.
pub create_process-Created :
    (s : System) (r : Request) → s.next_pid < usize_mod - 1 → Created s r (create s r)
create_process-Created s r h = create_at s r (s.process_table (s.next_pid % 256)) h refl

pub keeps-IsValid :
    (s : System) (r : Request) (o : Option Pid × System)
    → s.next_pid < usize_mod - 1
    → IsValid s
    → Created s r o
    → IsValid o.1
keeps-IsValid s r (some pid, s') h v (same, free, here, away, next) i p lt at =
    elim (ℕ_discrete i (pid % 256)) [
      | yes e ↦
          let new : made pid r ≡ p = some_injective (sym here ∙ ap s'.process_table (sym e) ∙ at) in
          let is : p.pid ≡ pid = ap (λ (x : Process). x.pid) (sym new) ∙ made-pid pid r in
          (omega (arith, is, e), omega (arith, is, same, next))
      | no ne ↦ let old = v i p lt (sym (away i ne) ∙ at) in (old.0, omega (arith, old.1, next))
    ]
keeps-IsValid s r (none, s') h v (taken, same, next) i p lt at =
    let old = v i p lt (ap (λ (t : ℕ → Option Process). t i) (sym same) ∙ at) in
    (old.0, omega (arith, old.1, next))
