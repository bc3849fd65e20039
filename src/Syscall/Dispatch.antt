-- ===== src/Syscall/Dispatch.antt =====
-- What `syscall_handler` of kernel/src/syscall/mod.rs answers.
use aetherion_os.Base.{ℕ, ◌^◌, ◌<◌, ◌≡◌, ◌≢◌, done, panic, arith}
use aetherion_os.Base.Int.{pos, negsuc}
use aetherion_os.Syscall.{write, exit, as_usize, syscall_handler}

-- A write to the standard output writes everything, an exit does not return, and whatever else is
-- asked for fails.
pub record Dispatches (num arg1 arg2 arg3 : ℕ) : Type 0 where
  pub written :
      num ≡ as_usize write
      → arg1 ≡ 1
      → arg3 < 2 ^ 63
      → syscall_handler num arg1 arg2 arg3 ≡ done (pos arg3)
  pub no_file :
      num ≡ as_usize write → arg1 ≢ 1 → syscall_handler num arg1 arg2 arg3 ≡ done (negsuc 0)
  pub exits : num ≡ as_usize exit → syscall_handler num arg1 arg2 arg3 ≡ panic
  pub refused :
      num ≢ as_usize write
      → num ≢ as_usize exit
      → syscall_handler num arg1 arg2 arg3 ≡ done (negsuc 0)

pub syscall_handler-Dispatches : (num arg1 arg2 arg3 : ℕ) → Dispatches num arg1 arg2 arg3
unfolding syscall_handler
syscall_handler-Dispatches num arg1 arg2 arg3 = record {
  written = λ e f h. ground arith;
  no_file = λ e f. ground arith;
  exits = λ e. ground arith;
  refused = λ e f. ground arith;
}
