-- ===== src/Drivers/Pci/Found.antt =====
-- The scan of kernel/src/drivers/pci/mod.rs against one pass over all locations.
use aetherion_os.Base.{
  ℕ, zero, suc, ◌+◌, ◌*◌, ◌/◌, ◌%◌, ◌<◌, ◌≤◌, ◌≡◌, refl, sym, ap, ◌∙◌, ◌!=◌, if◌then◌else◌, Option,
  none, some, List, [], ◌∷◌, ◌++◌, arith, bit_and, Bool-cases, inl, inr,
}
use mathlib.Core.List.{append-nil, append_assoc}
use mathlib.Core.Path.{ap₂}
use aetherion_os.Base.Action.{◌>>=◌}
use aetherion_os.Drivers.Pci.Config.{PortIo}
use aetherion_os.Drivers.Pci.Device.{PciDevice, new}
use aetherion_os.Drivers.Pci.Host.{Host, Reads, Reads-eq, pure-Reads, >>=-Reads}
use aetherion_os.Drivers.Pci.Read.{device_at, new-Reads}
use aetherion_os.Drivers.Pci.Scan.{
  push_found, scan_functions, scan_found, scan_devices, scan_buses, scan_bus,
}

-- A function that the code may see: function 0, and the others of a device whose function 0 says
-- that it has several.
abbrev pub behind : Option PciDevice → Option PciDevice → Option PciDevice
behind none found = none
behind (some first) found = if bit_and first.header_type 0x80 != 0 then found else none

unfoldable pub visible : (ℕ → ℕ) → ℕ → ℕ → ℕ → Option PciDevice
visible r bus device zero = device_at r bus device 0
visible r bus device (suc function) =
    behind (device_at r bus device 0) (device_at r bus device (suc function))

-- The location with the number `n` of the 256 * 32 * 8.
unfoldable pub seen : (ℕ → ℕ) → ℕ → Option PciDevice
unfolding visible
seen r n = visible r (n / 256) (n / 8 % 32) (n % 8)

-- What `see` shows at `n`, `n + 1`, …, `n + left - 1`, in that order.
unfoldable pub collect : (ℕ → Option PciDevice) → ℕ → ℕ → List PciDevice
collect see zero n = []
collect see (suc left) n = push_found [] (see n) ++ collect see left (n + 1)

collect-add :
    (see : ℕ → Option PciDevice) (a b n : ℕ)
    → collect see (a + b) n ≡ collect see a n ++ collect see b (n + a)
unfolding collect
collect-add see zero b n = ap₂ (collect see) (omega arith) (omega arith)
collect-add see (suc a) b n =
    let e : suc a + b ≡ suc (a + b) = omega arith in
    let m : n + 1 + a ≡ n + suc a = omega arith in
    ap (λ (t : ℕ). collect see t n) e
    ∙ ap (λ (t : List PciDevice). push_found [] (see n) ++ t)
        (collect-add see a b (n + 1) ∙ ap (λ (t : ℕ). collect see a (n + 1) ++ collect see b t) m)
    ∙ sym (append_assoc (push_found [] (see n)) (collect see a (n + 1)) (collect see b (n + suc a)))

-- One location in front of the rest.
pushed :
    (devices : List PciDevice) (found : Option PciDevice) (rest : List PciDevice)
    → push_found devices found ++ rest ≡ devices ++ (push_found [] found ++ rest)
pushed devices none rest = refl
pushed devices (some d) rest = append_assoc devices (d ∷ []) rest

-- `size` locations in front of `left` times as many.
chunk :
    (see : ℕ → Option PciDevice) (devices : List PciDevice) (size left n n' : ℕ)
    → n' ≡ n + size
    → (devices ++ collect see size n) ++ collect see (left * size) n'
      ≡ devices ++ collect see (suc left * size) n
chunk see devices size left n n' e =
    append_assoc devices (collect see size n) (collect see (left * size) n')
    ∙ ap (λ (t : List PciDevice). devices ++ t)
        (ap (λ (t : ℕ). collect see size n ++ collect see (left * size) t) e
          ∙ sym (collect-add see size (left * size) n)
          ∙ ap (λ (t : ℕ). collect see t n) (omega arith))

collect-eq :
    (see see' : ℕ → Option PciDevice) (left n n' : ℕ)
    → ((i : ℕ) → i < left → see (n + i) ≡ see' (n' + i))
    → collect see left n ≡ collect see' left n'
unfolding collect
collect-eq see see' zero n n' h = refl
collect-eq see see' (suc left) n n' h =
    let here : see n ≡ see' n' = ap see (omega arith) ∙ h 0 (omega arith) ∙ ap see' (omega arith) in
    let there = λ (i : ℕ) (lt : i < left).
      let t : see (n + 1 + i) ≡ see' (n' + 1 + i) =
        ap see (omega arith) ∙ h (i + 1) (omega arith) ∙ ap see' (omega arith) in
      t in
    ap₂ (λ (o : Option PciDevice) (t : List PciDevice). push_found [] o ++ t) here
      (collect-eq see see' left (n + 1) (n' + 1) there)

-- The numbers of one device are eight in a row.
pub seen-add :
    (r : ℕ → ℕ) (bus device function : ℕ)
    → bus < 256
    → device < 32
    → function < 8
    → seen r ((bus * 32 + device) * 8 + function) ≡ visible r bus device function
unfolding seen
seen-add r bus device function hb hd hf =
    let b : ((bus * 32 + device) * 8 + function) / 256 ≡ bus = omega arith in
    let d : ((bus * 32 + device) * 8 + function) / 8 % 32 ≡ device = omega arith in
    let f : ((bus * 32 + device) * 8 + function) % 8 ≡ function = omega arith in rw (b, d, f)

eight :
    (r : ℕ → ℕ) (bus device : ℕ)
    → bus < 256
    → device < 32
    → collect (seen r) 8 ((bus * 32 + device) * 8)
      ≡ push_found [] (device_at r bus device 0)
        ++ collect (λ f. behind (device_at r bus device 0) (device_at r bus device f)) 7 1
unfolding visible
eight r bus device hb hd =
    collect-eq (seen r) (visible r bus device) 8 ((bus * 32 + device) * 8) 0 (λ i lt.
      seen-add r bus device i hb hd lt ∙ ap (visible r bus device) {y = 0 + i} (omega arith))
    ∙ unfold collect in
      ap (λ (t : List PciDevice). push_found [] (device_at r bus device 0) ++ t)
        (collect-eq (visible r bus device)
          (λ f. behind (device_at r bus device 0) (device_at r bus device f)) 7 1 1
          (λ i lt.
            ap (visible r bus device) {y = suc i} (omega arith)
            ∙ ap (λ (t : ℕ). behind (device_at r bus device 0) (device_at r bus device t))
                (omega arith)))

module _ (io : PortIo) (host : Host io) where
  scan_functions-Reads :
      (bus device left function : ℕ) (devices : List PciDevice)
      → Reads io host
          (scan_functions io bus device left function devices)
          (λ r. devices ++ collect (device_at r bus device) left function)
  unfolding scan_functions collect
  scan_functions-Reads bus device zero function devices = record {
    value = λ p. sym (append-nil devices);
    keeps = λ p. refl;
  }
  scan_functions-Reads bus device (suc left) function devices =
      Reads-eq io host _
        (>>=-Reads io host (new-Reads io host bus device function)
          (λ found. scan_functions-Reads bus device left (function + 1) (push_found devices found)))
        (λ r. pushed devices (device_at r bus device function) _)

  -- The eight functions of one device.
  scan_found-Reads :
      (bus device : ℕ) (devices : List PciDevice) (first : Option PciDevice)
      → Reads io host (scan_found io bus device devices first) (λ r.
        devices
        ++ (push_found [] first ++ collect (λ f. behind first (device_at r bus device f)) 7 1))
  unfolding scan_found collect
  scan_found-Reads bus device devices none =
      Reads-eq io host _ (pure-Reads io host devices) (λ r. sym (append-nil devices))
  scan_found-Reads bus device devices (some d) =
      elim (Bool-cases (bit_and d.header_type 0x80 != 0)) [
        | inl several ↦ rw several (
            Reads-eq io host _ (scan_functions-Reads bus device 7 1 (devices ++ (d ∷ [])))
              (λ r. append_assoc devices (d ∷ []) (collect (device_at r bus device) 7 1)))
        | inr single ↦
            rw single (Reads-eq io host _ (pure-Reads io host (devices ++ (d ∷ []))) (λ r. refl))
      ]

  scan_device-Reads :
      (bus device : ℕ) (devices : List PciDevice)
      → bus < 256
      → device < 32
      → Reads io host
          (new io (bus % 256) (device % 256) 0 >>= λ found.
            scan_found io (bus % 256) (device % 256) devices found)
          (λ r. devices ++ collect (seen r) 8 ((bus * 32 + device) * 8))
  scan_device-Reads bus device devices hb hd =
      let b : bus % 256 ≡ bus = omega arith in
      let d : device % 256 ≡ device = omega arith in
      rw (b, d)
        (Reads-eq io host _
          (>>=-Reads io host (new-Reads io host bus device 0) (scan_found-Reads bus device devices))
          (λ r. ap (λ (t : List PciDevice). devices ++ t) (sym (eight r bus device hb hd))))

  scan_devices-Reads :
      (bus left device : ℕ) (devices : List PciDevice)
      → bus < 256
      → device + left ≤ 32
      → Reads io host
          (scan_devices io bus left device devices)
          (λ r. devices ++ collect (seen r) (left * 8) ((bus * 32 + device) * 8))
  unfolding scan_devices collect
  scan_devices-Reads bus zero device devices hb h = record {
    value = λ p. sym (append-nil devices);
    keeps = λ p. refl;
  }
  scan_devices-Reads bus (suc left) device devices hb h =
      Reads-eq io host _
        (>>=-Reads io host (scan_device-Reads bus device devices hb (omega arith))
          (λ devices'. scan_devices-Reads bus left (device + 1) devices' hb (omega arith)))
        (λ r. chunk (seen r) devices 8 left ((bus * 32 + device) * 8) _ (omega arith))

  scan_buses-Reads :
      (left bus : ℕ) (devices : List PciDevice)
      → bus + left ≤ 256
      → Reads io host
          (scan_buses io left bus devices)
          (λ r. devices ++ collect (seen r) (left * 256) (bus * 256))
  unfolding scan_buses collect
  scan_buses-Reads zero bus devices h = record {
    value = λ p. sym (append-nil devices);
    keeps = λ p. refl;
  }
  scan_buses-Reads (suc left) bus devices h =
      Reads-eq io host _
        (>>=-Reads io host (scan_devices-Reads bus 32 0 devices (omega arith) (omega arith))
          (λ devices'. scan_buses-Reads left (bus + 1) devices' (omega arith)))
        (λ r.
          ap
            (λ (t : ℕ).
              (devices ++ collect (seen r) 256 t)
              ++ collect (seen r) (left * 256) ((bus + 1) * 256))
            (omega arith)
          ∙ chunk (seen r) devices 256 left (bus * 256) _ (omega arith))

  -- The scan gives the visible functions of all locations in their order, and changes no register.
  pub scan_bus-Reads : Reads io host (scan_bus io) (λ r. collect (seen r) 65536 0)
  unfolding scan_bus
  scan_bus-Reads = scan_buses-Reads 256 0 [] (omega arith)
