-- ===== src/Drivers/Usb/Xhci/Start.antt =====
-- `init` of kernel/src/drivers/usb/xhci.rs ends once the controller answers.
use aetherion_os.Base.{
  ℕ, zero, suc, ◌≤◌, ◌≡◌, ◌⊎◌, inl, inr, ap, ◌∙◌, sym, arith, ◌==◌, ◌!=◌, not, Bool, true, false,
  Option, some, bit_and, bit_or, Bool-cases,
}
use aetherion_os.Base.Action.{pure}
use aetherion_os.Base.Fallible.{ok}
use aetherion_os.Base.Word.{not_u32}
use aetherion_os.Drivers.Usb.Xhci.{
  Mmio, Access, XhciController, usbcmd_at, usbsts_at, wait_halted, wait_ready, init,
}

module _ (mmio : Mmio) where
  -- The register at `a` passes the test by the `n`-th read from `regs` on at the latest.
  abbrev pub Answers : ℕ → (ℕ → Bool) → ℕ → mmio.Regs → Type 0
  Answers a test zero regs = ⊥
  Answers a test (suc n) regs =
      (test (mmio.read_u32 a regs).0 ≡ true) ⊎ Answers a test n (mmio.read_u32 a regs).1

  abbrev pub halted : ℕ → Bool
  halted usbsts = bit_and usbsts 0x1 != 0

  abbrev pub ready : ℕ → Bool
  ready usbcmd = bit_and usbcmd 0x2 == 0

  -- The registers once the test has passed, with reads for as long as it has not.
  unfoldable pub settle : ℕ → (ℕ → Bool) → ℕ → mmio.Regs → mmio.Regs
  settle a test zero regs = regs
  settle a test (suc n) regs =
      let r = mmio.read_u32 a regs in elim (test r.0) [ true ↦ r.1 | false ↦ settle a test n r.1 ]

  abbrev pub commanded : ℕ → (ℕ → ℕ) → mmio.Regs → mmio.Regs
  commanded op_regs f regs =
      let r = mmio.read_u32 (usbcmd_at op_regs) regs in
      mmio.write_u32 (usbcmd_at op_regs) (f r.0) r.1

  settle_passed :
      (a : ℕ) (test : ℕ → Bool) (n : ℕ) (regs : mmio.Regs)
      → test (mmio.read_u32 a regs).0 ≡ true
      → settle a test (suc n) regs ≡ (mmio.read_u32 a regs).1
  unfolding settle
  settle_passed a test n regs e =
      let r = mmio.read_u32 a regs in
      ap (λ (b : Bool). elim b [ true ↦ r.1 | false ↦ settle a test n r.1 ]) e

  settle_failed :
      (a : ℕ) (test : ℕ → Bool) (n : ℕ) (regs : mmio.Regs)
      → test (mmio.read_u32 a regs).0 ≡ false
      → settle a test (suc n) regs ≡ settle a test n (mmio.read_u32 a regs).1
  unfolding settle
  settle_failed a test n regs e =
      let r = mmio.read_u32 a regs in
      ap (λ (b : Bool). elim b [ true ↦ r.1 | false ↦ settle a test n r.1 ]) e

  wait_halted-settle :
      (op_regs n fuel : ℕ) (regs : mmio.Regs)
      → n ≤ fuel
      → Answers (usbsts_at op_regs) halted n regs
      → wait_halted mmio fuel op_regs regs ≡ (some tt, settle (usbsts_at op_regs) halted n regs)
  unfolding wait_halted
  wait_halted-settle op_regs zero fuel regs h w = elim w [ ]
  wait_halted-settle op_regs (suc n) zero regs h w = absurd (omega arith)
  wait_halted-settle op_regs (suc n) (suc fuel) regs h w =
      let r = mmio.read_u32 (usbsts_at op_regs) regs in
      let step = λ (b : Bool).
        let rest : Access mmio (Option (Unit {0})) = elim b [
          | true ↦ wait_halted mmio fuel op_regs
          | false ↦ pure (some tt)
        ] in
        rest r.1 in
      elim (Bool-cases (bit_and r.0 0x1 == 0)) [
        | inl running ↦
            ap step running
            ∙ elim w [
              | inl stopped ↦ absurd (ground arith)
              | inr later ↦ wait_halted-settle op_regs n fuel r.1 (omega arith) later
            ]
            ∙ ap (λ (s : mmio.Regs). (some tt, s))
                (sym (settle_failed (usbsts_at op_regs) halted n regs (ap not running)))
        | inr stopped ↦
            ap step stopped
            ∙ ap (λ (s : mmio.Regs). (some tt, s))
                (sym (settle_passed (usbsts_at op_regs) halted n regs (ap not stopped)))
      ]

  wait_ready-settle :
      (op_regs n fuel : ℕ) (regs : mmio.Regs)
      → n ≤ fuel
      → Answers (usbcmd_at op_regs) ready n regs
      → wait_ready mmio fuel op_regs regs ≡ (some tt, settle (usbcmd_at op_regs) ready n regs)
  unfolding wait_ready
  wait_ready-settle op_regs zero fuel regs h w = elim w [ ]
  wait_ready-settle op_regs (suc n) zero regs h w = absurd (omega arith)
  wait_ready-settle op_regs (suc n) (suc fuel) regs h w =
      let r = mmio.read_u32 (usbcmd_at op_regs) regs in
      let step = λ (b : Bool).
        let rest : Access mmio (Option (Unit {0})) = elim (not b) [
          | true ↦ wait_ready mmio fuel op_regs
          | false ↦ pure (some tt)
        ] in
        rest r.1 in
      elim (Bool-cases (bit_and r.0 0x2 == 0)) [
        | inl done ↦
            ap step done
            ∙ ap (λ (s : mmio.Regs). (some tt, s))
                (sym (settle_passed (usbcmd_at op_regs) ready n regs done))
        | inr busy ↦
            ap step busy
            ∙ elim w [
              | inl done ↦ absurd (ground arith)
              | inr later ↦ wait_ready-settle op_regs n fuel r.1 (omega arith) later
            ]
            ∙ ap (λ (s : mmio.Regs). (some tt, s))
                (sym (settle_failed (usbcmd_at op_regs) ready n regs busy))
      ]

  -- The registers after the stop command, and those after the reset command.
  abbrev pub stopping : XhciController → mmio.Regs → mmio.Regs
  stopping c regs = commanded c.op_regs (λ usbcmd. bit_and usbcmd (not_u32 0x1)) regs

  unfoldable pub resetting : XhciController → ℕ → mmio.Regs → mmio.Regs
  unfolding settle
  resetting c n regs =
      commanded c.op_regs (λ usbcmd. bit_or usbcmd 0x2)
        (settle (usbsts_at c.op_regs) halted n (stopping c regs))

  pub started : XhciController → ℕ → ℕ → mmio.Regs → mmio.Regs
  unfolding resetting
  started c n m regs =
      commanded c.op_regs (λ usbcmd. bit_or usbcmd 0x1)
        (settle (usbcmd_at c.op_regs) ready m (resetting c n regs))

  -- A controller that halts by the n-th read after the stop command, and ends its reset by the
  -- m-th read after the reset command, is started, and init returns with success; n and m rounds
  -- of the two waits are enough.
  pub init_starts :
      (c : XhciController) (n m fuel : ℕ) (regs : mmio.Regs)
      → Answers (usbsts_at c.op_regs) halted n (stopping c regs)
      → Answers (usbcmd_at c.op_regs) ready m (resetting c n regs)
      → n ≤ fuel
      → m ≤ fuel
      → init mmio fuel c regs ≡ (some (ok tt), started c n m regs)
  unfolding init started
  init_starts c n m fuel regs halts resets hn hm =
      rw (wait_halted-settle c.op_regs n fuel (stopping c regs) hn halts)
        (rw (wait_ready-settle c.op_regs m fuel (resetting c n regs) hm resets))
