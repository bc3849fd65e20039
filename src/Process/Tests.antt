-- ===== src/Process/Tests.antt =====
-- Runs of kernel/src/process/mod.rs, and its theorems at concrete requests.
use aetherion_os.Base.{◌≡◌, refl, true, false, some, [], ◌∷◌, arith}
use aetherion_os.Process.{
  boot, schedule, scan_ready, ready_pid, is_ready, create_process, allocate_pid, is_some, new_user,
  new_kernel,
}
use aetherion_os.Process.Table.{Request, IsValid}
use aetherion_os.Process.Fill.{run, answers, create_processes}

abbrev shell : Request
shell = record { entry = 0x400000; stack = 0x8000; is_user = true }

abbrev idle : Request
idle = record { entry = 0x100000; stack = 0x9000; is_user = false }

create_processes_example :
    ((run boot (shell ∷ idle ∷ [])).0 ≡ answers 0 2) × IsValid (run boot (shell ∷ idle ∷ [])).1
create_processes_example = create_processes (shell ∷ idle ∷ []) (omega arith)

two_pids : (run boot (shell ∷ idle ∷ [])).0 ≡ some 1 ∷ some 2 ∷ []
unfolding boot create_process allocate_pid is_some
two_pids = refl

schedule_first : schedule (run boot (shell ∷ idle ∷ [])).1 ≡ some 1
unfolding boot create_process allocate_pid is_some schedule scan_ready ready_pid is_ready new_user
    new_kernel
schedule_first = refl
