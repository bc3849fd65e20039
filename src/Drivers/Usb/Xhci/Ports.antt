-- ===== src/Drivers/Usb/Xhci/Ports.antt =====
-- `enumerate_devices` of kernel/src/drivers/usb/xhci.rs finds one device for each connected port.
use mathlib.Core.List.{append-nil, append_assoc}
use mathlib.Core.Path.{subst}
use aetherion_os.Base.{
  ℕ, zero, suc, ◌+◌, ◌<◌, ◌≤◌, ◌≡◌, refl, ap, ◌∙◌, sym, arith, lt→leb, ◌==◌, ◌!=◌, ◌^◌, not, Bool,
  true, false, if◌then◌else◌, bit_and, Bool-cases, inl, inr, List, [], ◌∷◌, ◌++◌,
}
use aetherion_os.Base.Action.{◌>>=◌, pure}
use aetherion_os.Base.Fallible.{ok, err}
use aetherion_os.Drivers.Usb.Descriptor.{UsbDevice}
use aetherion_os.Drivers.Usb.Xhci.{
  Mmio, Access, XhciController, portsc_at, placeholder, is_port_connected, wait_reset, reset_port,
  probe_device, after_reset, visit_port, visit_ports, enumerate_devices, push_ok,
}

-- No device comes or goes: `connected` is what the status of each port says, whatever is read and
-- written.
pub record Steady (mmio : Mmio) (c : XhciController) (connected : ℕ → Bool) : Type 1 where
  pub Good : mmio.Regs → Type 0
  pub status :
      (regs : mmio.Regs) (port : ℕ)
      → Good regs
      → (bit_and (mmio.read_u32 (portsc_at c.port_regs port) regs).0 0x1 != 0) ≡ connected port
  pub read_keeps : (regs : mmio.Regs) (a : ℕ) → Good regs → Good (mmio.read_u32 a regs).1
  pub write_keeps : (regs : mmio.Regs) (a v : ℕ) → Good regs → Good (mmio.write_u32 a v regs)

-- One device for each of the ports `port`, `port + 1`, … that is connected.
unfoldable pub found : (ℕ → Bool) → ℕ → ℕ → List UsbDevice
unfolding placeholder
found connected zero port = []
found connected (suc left) port =
    (if connected port then placeholder ∷ [] else []) ++ found connected left (port + 1)

module _ (mmio : Mmio) (c : XhciController) (connected : ℕ → Bool)
    (steady : Steady mmio c connected) where
  -- The code returns `a`, and the registers stay good.
  record Gives {A : Type 0} (m : Access mmio A) (a : A) : Type 0 where
    pub value : (regs : mmio.Regs) → steady.Good regs → (m regs).0 ≡ a
    pub good : (regs : mmio.Regs) → steady.Good regs → steady.Good (m regs).1

  Gives-bind :
      {A B : Type 0} {m : Access mmio A} {a : A} (f : A → Access mmio B) {b : B}
      → Gives m a
      → Gives (f a) b
      → Gives (m >>= f) b
  Gives-bind {m} {a} f {b} h k = record {
    value = λ regs g.
        ap (λ x. (f x (m regs).1).0) (h.value regs g) ∙ k.value (m regs).1 (h.good regs g);
    good = λ regs g.
        subst (λ x. steady.Good (f x (m regs).1).1) (sym (h.value regs g))
          (k.good (m regs).1 (h.good regs g));
  }

  Gives-pure : {A : Type 0} (a : A) → Gives (pure a) a
  Gives-pure a = record { value = λ regs g. refl; good = λ regs g. g }

  is_port_connected-Gives :
      (port : ℕ) → port < c.max_ports → Gives (is_port_connected mmio c port) (connected port)
  unfolding is_port_connected
  is_port_connected-Gives port h = rw (lt→leb c.max_ports port h) (record {
    value = λ regs g. steady.status regs port g;
    good = λ regs g. steady.read_keeps regs (portsc_at c.port_regs port) g;
  })

  wait_reset-Gives : (left a : ℕ) → Gives (wait_reset mmio left a) tt
  unfolding wait_reset
  wait_reset-Gives zero a = Gives-pure tt
  wait_reset-Gives (suc left) a = record {
    value = λ regs g. refl;
    good = λ regs g.
        let r = mmio.read_u32 a regs in
        let good = steady.read_keeps regs a g in
        elim (bit_and r.0 (2 ^ 4) == 0)
          as (λ (b : Bool).
            steady.Good
              (let rest : Access mmio (Unit {0}) = elim b [
                | true ↦ pure tt
                | false ↦ wait_reset mmio left a
              ] in
                rest r.1).1) [ true ↦ good | false ↦ (wait_reset-Gives left a).good r.1 good ];
  }

  reset_port-Gives : (port : ℕ) → port < c.max_ports → Gives (reset_port mmio c port) (ok tt)
  unfolding reset_port
  reset_port-Gives port h = rw (lt→leb c.max_ports port h) (record {
    value = λ regs g. refl;
    good = λ regs g. (wait_reset-Gives 1000 (portsc_at c.port_regs port)).good _ (
        steady.write_keeps _ (portsc_at c.port_regs port) _
          (steady.read_keeps regs (portsc_at c.port_regs port) g));
  })

  probe_device-Gives :
      (port : ℕ)
      → port < c.max_ports
      → connected port ≡ true
      → Gives (probe_device mmio c port) (ok placeholder)
  unfolding probe_device
  probe_device-Gives port h e =
      let probe = λ (b : Bool).
        if not b
        then pure (err "No device connected")
        else (reset_port mmio c port >>= after_reset mmio) in
      Gives-bind probe (is_port_connected-Gives port h) (
        rw e (
          Gives-bind (after_reset mmio) (reset_port-Gives port h)
            (unfold after_reset in Gives-pure (ok placeholder))))

  visit_port-Gives :
      (port : ℕ) (devices : List UsbDevice)
      → port < c.max_ports
      → Gives
          (visit_port mmio c port devices)
          (devices ++ (if connected port then placeholder ∷ [] else []))
  unfolding visit_port
  visit_port-Gives port devices h =
      let visit = λ (b : Bool).
        if b
        then (probe_device mmio c port >>= λ r. pure (push_ok mmio devices r))
        else pure devices in
      Gives-bind visit (is_port_connected-Gives port h) (elim (Bool-cases (connected port)) [
        | inl present ↦ rw present (
            Gives-bind (λ r. pure (push_ok mmio devices r)) (probe_device-Gives port h present)
              (Gives-pure _))
        | inr absent ↦ rw (absent, append-nil devices) (Gives-pure devices)
      ])

  visit_ports-Gives :
      (left port : ℕ) (devices : List UsbDevice)
      → port + left ≤ c.max_ports
      → Gives (visit_ports mmio c left port devices) (devices ++ found connected left port)
  unfolding visit_ports found
  visit_ports-Gives zero port devices h = rw (append-nil devices) (Gives-pure devices)
  visit_ports-Gives (suc left) port devices h =
      let here = if connected port then placeholder ∷ [] else [] in
      Gives-bind (visit_ports mmio c left (port + 1)) (visit_port-Gives port devices (omega arith))
        (subst (Gives (visit_ports mmio c left (port + 1) (devices ++ here)))
          (append_assoc devices here (found connected left (port + 1)))
          (visit_ports-Gives left (port + 1) (devices ++ here) (omega arith)))

  -- While no port changes its connection, whatever is read and written, enumerate_devices returns
  -- one device for each connected port among the first max_ports, in their order, and keeps those
  -- in place of the devices it had.
  pub enumerate_devices_finds :
      (regs : mmio.Regs)
      → steady.Good regs
      → (enumerate_devices mmio c regs).0
        ≡ (ok (found connected c.max_ports 0), record c { devices = found connected c.max_ports 0 })
  unfolding enumerate_devices
  enumerate_devices_finds regs g =
      ap (λ (ds : List UsbDevice). (ok ds, record c { devices = ds }))
        ((visit_ports-Gives c.max_ports 0 [] (omega arith)).value regs g)
