-- ===== src/Interrupts/Tests.antt =====
-- The table of kernel/src/interrupts/idt.rs with concrete handlers.
use aetherion_os.Base.{◌*◌, ◌-◌, ◌≡◌, refl, arith, Returns}
use aetherion_os.Interrupts.{init_idt, load}
use aetherion_os.Interrupts.Gates.{IsInitial, init_idt-IsInitial}

init_idt-IsInitial_example :
    Returns
      (init_idt 0x101000 0x102000 0xFFFF800000103000)
      (IsInitial 0x101000 0x102000 0xFFFF800000103000)
init_idt-IsInitial_example =
    init_idt-IsInitial 0x101000 0x102000 0xFFFF800000103000 (omega arith) (omega arith)
      (omega arith)

-- The descriptor's limit is the last byte of 256 entries of 16 bytes.
last_byte : (load 0x2000).limit ≡ 256 * 16 - 1
unfolding load
last_byte = refl
