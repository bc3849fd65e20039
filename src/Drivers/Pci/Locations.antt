-- ===== src/Drivers/Pci/Locations.antt =====
-- What the scan of kernel/src/drivers/pci/mod.rs finds.
use aetherion_os.Base.{
  ℕ, zero, suc, ◌+◌, ◌*◌, ◌/◌, ◌%◌, ◌^◌, ◌<◌, ◌≤◌, ◌≡◌, ◌≢◌, sym, ap, ◌∙◌, Option, none, some, List,
  [], ◌∷◌, arith, All, inl, inr, Option-cases, ℕ_discrete,
}
use mathlib.Core.List.{Mem, mem-cons_self, mem-append_right}
use aetherion_os.Drivers.Pci.Config.{PortIo}
use aetherion_os.Drivers.Pci.Device.{PciDevice}
use aetherion_os.Drivers.Pci.Host.{Host}
use aetherion_os.Drivers.Pci.Config.{pci_address}
use aetherion_os.Drivers.Pci.Address.{pci_address_lem}
use aetherion_os.Drivers.Pci.Read.{device_at}
use aetherion_os.Drivers.Pci.Scan.{push_found, scan_bus}
use aetherion_os.Drivers.Pci.Found.{visible, seen, collect, scan_bus-Reads, behind, seen-add}

abbrev pub location : PciDevice → ℕ
location d = (d.bus * 32 + d.device) * 8 + d.function

-- Each device lies above the one before it.
abbrev pub Ascending : List PciDevice → Type 0
Ascending [] = Unit
Ascending (d ∷ ds) = All (λ e. location d < location e) ds × Ascending ds

-- A device is where it says, at a location of the bus.
abbrev pub IsVisible : (ℕ → ℕ) → PciDevice → Type 0
IsVisible r d =
    (d.bus < 256)
    × (d.device < 32)
    × (d.function < 8)
    × (d.vendor_id ≢ 0xFFFF)
    × (visible r d.bus d.device d.function ≡ some d)

-- The registers are read at the addresses of configuration mechanism 1.
pub record IsScan (r : ℕ → ℕ) (devices : List PciDevice) : Type 0 where
  pub addresses :
      (bus device function offset : ℕ)
      → bus < 256
      → device < 32
      → function < 8
      → offset < 256
      → pci_address bus device function offset
        ≡ 2 ^ 31 + bus * 2 ^ 16 + device * 2 ^ 11 + function * 2 ^ 8 + offset / 4 * 4
  pub ascending : Ascending devices
  pub sound : All (IsVisible r) devices
  pub complete :
      (bus device function : ℕ) (d : PciDevice)
      → bus < 256
      → device < 32
      → function < 8
      → visible r bus device function ≡ some d
      → Mem d devices

device_at-vendor :
    (r : ℕ → ℕ) (bus device function : ℕ) (d : PciDevice)
    → device_at r bus device function ≡ some d
    → (d.bus ≡ bus) × (d.device ≡ device) × (d.function ≡ function) × (d.vendor_id ≢ 0xFFFF)
unfolding device_at
device_at-vendor r bus device function d e = ground arith

behind-some :
    (first found : Option PciDevice) (d : PciDevice) → behind first found ≡ some d → found ≡ some d
behind-some none found d e = cc
behind-some (some first) found d e = ground arith

visible-vendor :
    (r : ℕ → ℕ) (bus device function : ℕ) (d : PciDevice)
    → visible r bus device function ≡ some d
    → (d.bus ≡ bus) × (d.device ≡ device) × (d.function ≡ function) × (d.vendor_id ≢ 0xFFFF)
unfolding visible
visible-vendor r bus device zero d e = device_at-vendor r bus device 0 d e
visible-vendor r bus device (suc function) d e =
    device_at-vendor r bus device (suc function) d
      (behind-some (device_at r bus device 0) (device_at r bus device (suc function)) d e)

-- What is seen at a number lies at the location with that number.
seen-IsVisible :
    (r : ℕ → ℕ) (n : ℕ) (d : PciDevice)
    → n < 65536
    → seen r n ≡ some d
    → (location d ≡ n) × IsVisible r d
unfolding seen
seen-IsVisible r n d h e =
    let v = visible-vendor r (n / 256) (n / 8 % 32) (n % 8) d e in
    let there : visible r d.bus d.device d.function ≡ some d = simp (v.0, v.1, v.2) e in
    (
      omega (arith, v.0, v.1, v.2),
      (omega (arith, v.0), omega (arith, v.1), omega (arith, v.2), v.3, there),
    )

-- What holds of all that can be seen holds of all that is collected.
collect-All :
    (P : PciDevice → Type 0) (see : ℕ → Option PciDevice) (left n : ℕ)
    → ((i : ℕ) (d : PciDevice) → n ≤ i → i < n + left → see i ≡ some d → P d)
    → All P (collect see left n)
unfolding collect
collect-All P see zero n h = tt
collect-All P see (suc left) n h =
    let rest =
      collect-All P see left (n + 1) (λ i d lo hi e. h i d (omega arith) (omega arith) e) in
    elim (Option-cases (see n)) [
      | inl empty ↦ rw empty rest
      | inr (d, found) ↦ rw found (h n d (omega arith) (omega arith) found, rest)
    ]

collect-Ascending :
    (see : ℕ → Option PciDevice) (left n : ℕ)
    → ((i : ℕ) (d : PciDevice) → n ≤ i → i < n + left → see i ≡ some d → location d ≡ i)
    → Ascending (collect see left n)
unfolding collect
collect-Ascending see zero n h = tt
collect-Ascending see (suc left) n h =
    let rest =
      collect-Ascending see left (n + 1) (λ i d lo hi e. h i d (omega arith) (omega arith) e) in
    elim (Option-cases (see n)) [
      | inl empty ↦ rw empty rest
      | inr (d, found) ↦ rw found (
        collect-All (λ e. location d < location e) see left (n + 1)
            (λ i e lo hi seen_there. omega (
              arith,
              h n d (omega arith) (omega arith) found,
              h i e (omega arith) (omega arith) seen_there,
            )),
        rest,
      )
    ]

mem-collect :
    (see : ℕ → Option PciDevice) (left n i : ℕ) (d : PciDevice)
    → n ≤ i
    → i < n + left
    → see i ≡ some d
    → Mem d (collect see left n)
unfolding collect
mem-collect see zero n i d lo hi e = absurd (omega arith)
mem-collect see (suc left) n i d lo hi e = elim (ℕ_discrete i n) [
  | yes here ↦ rw (sym (ap see here) ∙ e) mem-cons_self
  | no later ↦
      mem-append_right (push_found [] (see n))
        (mem-collect see left (n + 1) i d (omega arith) (omega arith) e)
]

-- Over any ports that follow configuration mechanism 1, the scan lists the visible functions of
-- the bus, each of them once and by ascending location, and leaves every register as it was.
-- Function 0 of a device is visible if its vendor identifier is not 0xFFFF; another function is
-- visible if function 0 is, with bit 7 of its header type, and its own vendor identifier is not
-- 0xFFFF. The registers stand at the addresses of the mechanism: the enable bit, the bus, the
-- device, the function and the dword side by side.
pub scan_bus-IsScan :
    (io : PortIo) (host : Host io) (p : io.Ports)
    → IsScan (host.register p) (scan_bus io p).0
      × (host.register (scan_bus io p).1 ≡ host.register p)
scan_bus-IsScan io host p =
    let r = host.register p in
    let reads = scan_bus-Reads io host in
    let there = λ (i : ℕ) (d : PciDevice) (lo : 0 ≤ i) (hi : i < 0 + 65536) (e : seen r i ≡ some d).
      seen-IsVisible r i d (omega arith) e in
    (
      rw (reads.value p) (record {
        addresses = pci_address_lem;
        ascending = collect-Ascending (seen r) 65536 0 (λ i d lo hi e. (there i d lo hi e).0);
        sound = collect-All (IsVisible r) (seen r) 65536 0 (λ i d lo hi e. (there i d lo hi e).1);
        complete = λ bus device function d hb hd hf e.
            mem-collect (seen r) 65536 0 ((bus * 32 + device) * 8 + function) d (omega arith)
              (omega arith) (seen-add r bus device function hb hd hf ∙ e);
      }),
      reads.keeps p,
    )
