-- ===== src/Process.antt =====
-- kernel/src/process/mod.rs: the process table, process identifiers and the scheduler.
pub mod Table
pub mod Fill
pub mod Schedule
mod Tests
use aetherion_os.Base.{
  ℕ, zero, suc, ◌+◌, ◌%◌, ◌==◌, Bool, true, false, if◌then◌else◌, Option, none, some,
}
use aetherion_os.Base.Word.{add_usize}

-- A `Pid` is its `usize`; `new` and `as_usize` are the identity.
abbrev pub Pid : Type 0
Pid = ℕ

pub data ProcessState : Type 0 where
  ready : ProcessState
  running : ProcessState
  blocked : ProcessState
  terminated : ProcessState

pub data PrivilegeLevel : Type 0 where
  kernel : PrivilegeLevel
  user : PrivilegeLevel

pub record Process : Type 0 where
  pub pid : Pid
  pub state : ProcessState
  pub privilege : PrivilegeLevel
  pub rsp : ℕ
  pub rip : ℕ
  pub rflags : ℕ
  pub page_table : ℕ
  pub priority : ℕ
  pub time_slice : ℕ

pub new_kernel : Pid → ℕ → ℕ → Process
new_kernel pid entry stack = record {
  pid = pid;
  state = ready;
  privilege = kernel;
  rsp = stack;
  rip = entry;
  rflags = 0x200;
  page_table = 0;
  priority = 0;
  time_slice = 100;
}

pub new_user : Pid → ℕ → ℕ → ℕ → Process
new_user pid entry stack page_table = record {
  pid = pid;
  state = ready;
  privilege = user;
  rsp = stack;
  rip = entry;
  rflags = 0x200;
  page_table = page_table;
  priority = 10;
  time_slice = 50;
}

pub set_state : Process → ProcessState → Process
set_state p state = record p { state = state }

-- `PROCESS_TABLE`, as a function of the index, and `NEXT_PID`.
pub record System : Type 0 where
  pub process_table : ℕ → Option Process
  pub next_pid : ℕ

pub boot : System
boot = record { process_table = λ i. none; next_pid = 1 }

pub allocate_pid : System → Pid × System
allocate_pid s = (s.next_pid, record s { next_pid = add_usize s.next_pid 1 })

pub is_some {ℓ} : {A : Type ℓ} → Option A → Bool
is_some none = false
is_some (some a) = true

-- `none` is the error "Process slot occupied".
pub create_process : System → ℕ → ℕ → Bool → Option Pid × System
create_process s entry stack is_user =
    let (pid, s') = allocate_pid s in
    let process = if is_user then new_user pid entry stack 0 else new_kernel pid entry stack in
    let index = pid % 256 in
    if is_some (s'.process_table index) then (none, s') else (
      some pid,
      record s' { process_table = λ i. if i == index then some process else s'.process_table i },
    )

pub is_ready : ProcessState → Bool
is_ready ready = true
is_ready running = false
is_ready blocked = false
is_ready terminated = false

pub ready_pid : Option Process → Option Pid → Option Pid
ready_pid none rest = rest
ready_pid (some p) rest = if is_ready p.state then some p.pid else rest

-- The loop over the table, with the rounds left.
pub scan_ready : (ℕ → Option Process) → ℕ → ℕ → Option Pid
scan_ready table zero i = none
scan_ready table (suc left) i = let rest = scan_ready table left (i + 1) in ready_pid (table i) rest

pub schedule : System → Option Pid
schedule s = scan_ready s.process_table 256 0
