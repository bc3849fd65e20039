-- ===== src/Process/Schedule.antt =====
-- `schedule` (kernel/src/process/mod.rs).
use aetherion_os.Base.{
  ℕ, zero, suc, ◌+◌, ◌≤◌, ◌<◌, ◌≡◌, refl, sym, ap, ◌∙◌, inl, inr, true, false, Bool-cases, Option,
  none, some, arith, dec_lt,
}
use mathlib.Core.Path.{subst}
use aetherion_os.Process.{Pid, Process, System, is_ready, ready_pid, scan_ready, schedule}

-- The slot has no process that is ready.
abbrev pub IsIdle : (ℕ → Option Process) → ℕ → Type 0
IsIdle table i = (p : Process) → table i ≡ some p → is_ready p.state ≡ false

-- The process in the slot is ready, and it is that one.
pub record Chosen (table : ℕ → Option Process) (from to : ℕ) (pid : Pid) : Type 0 where
  pub index : ℕ
  pub process : Process
  pub in_range : (from ≤ index) × (index < to)
  pub here : table index ≡ some process
  pub ready_now : is_ready process.state ≡ true
  pub same : process.pid ≡ pid
  pub first : (j : ℕ) → from ≤ j → j < index → IsIdle table j

abbrev pub FirstReady : (ℕ → Option Process) → ℕ → ℕ → Option Pid → Type 0
FirstReady table from to none = (j : ℕ) → from ≤ j → j < to → IsIdle table j
FirstReady table from to (some pid) = Chosen table from to pid

some_injective : {p q : Process} → some p ≡ some q → p ≡ q
some_injective e = cc

nothing : {p : Process} → none ≡ some p → ⊥
nothing e = cc

-- An idle slot in front changes nothing.
idle_first :
    (table : ℕ → Option Process) (i to : ℕ) (r : Option Pid)
    → IsIdle table i
    → FirstReady table (i + 1) to r
    → FirstReady table i to r
idle_first table i to none idle rest = λ j lo hi. elim (dec_lt i j) [
  | yes lt ↦ rest j (omega arith) hi
  | no ge ↦ let e : i ≡ j = omega (arith, lo, ge) in subst (IsIdle table) e idle
]
idle_first table i to (some pid) idle c = record {
  index = c.index;
  process = c.process;
  in_range = (omega (arith, c.in_range.0), c.in_range.1);
  here = c.here;
  ready_now = c.ready_now;
  same = c.same;
  first = λ j lo hi. elim (dec_lt i j) [
    | yes lt ↦ c.first j (omega arith) hi
    | no ge ↦ let e : i ≡ j = omega (arith, lo, ge) in subst (IsIdle table) e idle
  ];
}

module _ (table : ℕ → Option Process) (i to : ℕ) (rest : Option Pid) (h : i < to) where
  one_slot :
      (o : Option Process)
      → table i ≡ o
      → FirstReady table (i + 1) to rest
      → FirstReady table i to (ready_pid o rest)
  unfolding ready_pid
  one_slot none e r = idle_first table i to rest (λ p at. absurd (nothing (sym e ∙ at))) r
  one_slot (some p) e r = elim (Bool-cases (is_ready p.state)) [
    | inl yes_ready ↦ rw yes_ready (record {
      index = i;
      process = p;
      in_range = (omega arith, h);
      here = e;
      ready_now = yes_ready;
      same = refl;
      first = λ j lo hi. absurd (omega (arith, lo, hi));
    })
    | inr not_ready ↦ rw not_ready (
        idle_first table i to rest
          (λ q at. ap (λ (x : Process). is_ready x.state) (some_injective (sym at ∙ e)) ∙ not_ready)
          r)
  ]

scan_ready_lem :
    (table : ℕ → Option Process) (left i : ℕ)
    → FirstReady table i (i + left) (scan_ready table left i)
unfolding scan_ready
scan_ready_lem table zero i = λ j lo hi. absurd (omega (arith, lo, hi))
scan_ready_lem table (suc left) i =
    one_slot table i (i + suc left) (scan_ready table left (i + 1)) (omega arith) (table i) refl (
      subst (λ (x : ℕ). FirstReady table (i + 1) x (scan_ready table left (i + 1))) (omega arith)
        (scan_ready_lem table left (i + 1)))

-- schedule returns the identifier of the process in the first slot that has one which is ready,
-- and none only if no slot has one.
pub schedule-FirstReady : (s : System) → FirstReady s.process_table 0 256 (schedule s)
unfolding schedule
schedule-FirstReady s = scan_ready_lem s.process_table 256 0
