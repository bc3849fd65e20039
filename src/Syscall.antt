-- ===== src/Syscall.antt =====
-- kernel/src/syscall/mod.rs: the numbers of the system calls and their dispatch.
pub mod Dispatch
use aetherion_os.Base.{ℕ, ◌^◌, ◌==◌, ltb, if◌then◌else◌, Run, done, panic}
use aetherion_os.Base.Int.{ℤ, pos, negsuc, sub_ℕ}

pub data Syscall : Type 0 where
  write : Syscall
  read : Syscall
  exit : Syscall
  open_file : Syscall
  close : Syscall

-- The discriminants.
abbrev pub as_usize : Syscall → ℕ
as_usize write = 1
as_usize read = 2
as_usize exit = 3
as_usize open_file = 4
as_usize close = 5

-- `count as isize`
abbrev pub as_isize : ℕ → ℤ
as_isize n = if ltb n (2 ^ 63) then pos n else sub_ℕ n (2 ^ 64)

abbrev pub sys_write : ℕ → ℕ → ℕ → ℤ
sys_write fd buf count = if fd == 1 then as_isize count else negsuc 0

abbrev pub sys_read : ℕ → ℕ → ℕ → ℤ
sys_read fd buf count = negsuc 0

abbrev pub sys_exit : ℕ → Run ℤ
sys_exit code = panic

unfoldable pub syscall_handler : ℕ → ℕ → ℕ → ℕ → Run ℤ
syscall_handler syscall_num arg1 arg2 arg3 =
    if syscall_num == 1
    then done (sys_write arg1 arg2 arg3)
    else if syscall_num == 2
    then done (sys_read arg1 arg2 arg3)
    else if syscall_num == 3
    then sys_exit arg1
    else done (negsuc 0)
