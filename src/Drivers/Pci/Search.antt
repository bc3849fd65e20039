-- ===== src/Drivers/Pci/Search.antt =====
-- The searches of kernel/src/drivers/pci/mod.rs on the result of a scan.
use mathlib.Core.Logic.{∥∥₁_elim}
use mathlib.Core.Path.{subst}
use native.Mathlib.Bridge.{le_prop}
use mathlib.Core.List.{Memᴰ}
use aetherion_os.Base.{
  ℕ, ◌<◌, ◌≤◌, ◌≡◌, refl, sym, Option, none, some, List, [], ◌∷◌, arith, All, ◌==◌, ◌&&◌, Bool,
  true, false, Bool-cases, inl, inr, All-map,
}
use aetherion_os.Drivers.Pci.Config.{PortIo}
use aetherion_os.Drivers.Pci.Device.{PciDevice}
use aetherion_os.Drivers.Pci.Host.{Host}
use aetherion_os.Drivers.Pci.Scan.{scan_bus, find, find_device}
use aetherion_os.Drivers.Pci.Found.{visible}
use aetherion_os.Drivers.Pci.Locations.{location, Ascending, IsVisible, IsScan, scan_bus-IsScan}

-- What holds of every element holds of each one.
All-mem :
    (P : PciDevice → Type 0) {d : PciDevice} {ds : List PciDevice} → Memᴰ d ds → All P ds → P d
All-mem P (Memᴰ.head e) h = subst P (sym e) h.0
All-mem P (Memᴰ.tail m) h = All-mem P m h.1

-- No element passes the test.
none_pass :
    (test : PciDevice → Bool) (ds : List PciDevice)
    → find test ds ≡ none
    → All (λ e. test e ≡ false) ds
none_pass test [] h = tt
none_pass test (d ∷ ds) h = elim (Bool-cases (test d)) [
  | inl pass ↦ absurd (ground arith)
  | inr fail ↦ (fail, none_pass test ds (ground arith))
]

-- The element found passes, has every property of all, and no other that passes comes before it.
first_passes :
    (P : PciDevice → Type 0) (test : PciDevice → Bool) (ds : List PciDevice) (d : PciDevice)
    → Ascending ds
    → All P ds
    → find test ds ≡ some d
    → P d × (test d ≡ true) × All (λ e. test e ≡ true → location d ≤ location e) ds
first_passes P test [] d above all h = absurd (ground arith)
first_passes P test (x ∷ ds) d above all h = elim (Bool-cases (test x)) [
  | inl pass ↦
      let same : x ≡ d = ground arith in
      subst
        (λ (e : PciDevice).
          P e × (test e ≡ true) × All (λ u. test u ≡ true → location e ≤ location u) (x ∷ ds))
        same
        (
          all.0,
          pass,
          (
            λ _. omega arith,
            All-map (λ u. location x < location u) (λ u. test u ≡ true → location x ≤ location u) ds
                (λ u lt _. omega arith) above.0,
          ),
        )
  | inr fail ↦
      let rest = first_passes P test ds d above.1 all.1 (ground arith) in
      (rest.0, rest.1, (λ pass. absurd (ground arith), rest.2))
]

abbrev pub HasIds : ℕ → ℕ → PciDevice → Type 0
HasIds vendor_id device_id d = (d.vendor_id ≡ vendor_id) × (d.device_id ≡ device_id)

-- The answer of a search for two identifiers.
abbrev pub Answers : (ℕ → ℕ) → ℕ → ℕ → Option PciDevice → Type 0
Answers r vendor_id device_id none =
    (bus device function : ℕ) (e : PciDevice)
    → bus < 256
    → device < 32
    → function < 8
    → visible r bus device function ≡ some e
    → ¬ HasIds vendor_id device_id e
Answers r vendor_id device_id (some d) =
    IsVisible r d
    × HasIds vendor_id device_id d
    × ((bus device function : ℕ) (e : PciDevice)
        → bus < 256
        → device < 32
        → function < 8
        → visible r bus device function ≡ some e
        → HasIds vendor_id device_id e
        → location d ≤ location e)

abbrev test_ids : ℕ → ℕ → PciDevice → Bool
test_ids vendor_id device_id d = d.vendor_id == vendor_id && d.device_id == device_id

search-Answers :
    (r : ℕ → ℕ) (ds : List PciDevice) (vendor_id device_id : ℕ) (o : Option PciDevice)
    → IsScan r ds
    → find (test_ids vendor_id device_id) ds ≡ o
    → Answers r vendor_id device_id o
search-Answers r ds vendor_id device_id none scan e = λ bus device function d hb hd hf seen ids.
    ∥∥₁_elim (scan.complete bus device function d hb hd hf seen) (hlevel) (λ m.
      let miss =
        All-mem (λ u. test_ids vendor_id device_id u ≡ false) m
          (none_pass (test_ids vendor_id device_id) ds e) in
      ground arith)
search-Answers r ds vendor_id device_id (some d) scan e =
    let first =
      first_passes (IsVisible r) (test_ids vendor_id device_id) ds d scan.ascending scan.sound e in
    (
      first.0,
      ground arith,
      λ bus device function u hb hd hf seen ids.
          ∥∥₁_elim (scan.complete bus device function u hb hd hf seen) le_prop (λ m.
            All-mem (λ v. test_ids vendor_id device_id v ≡ true → location d ≤ location v) m first.2
              (ground arith)),
    )

pub find_device-Answers :
    (io : PortIo) (host : Host io) (p : io.Ports) (vendor_id device_id : ℕ)
    → Answers (host.register p) vendor_id device_id (find_device io vendor_id device_id p).0
unfolding find_device
find_device-Answers io host p vendor_id device_id =
    search-Answers (host.register p) (scan_bus io p).0 vendor_id device_id _
      (scan_bus-IsScan io host p).0 refl
