-- ===== src/Drivers/Pci/Names.antt =====
-- `PciDevice::device_name` of kernel/src/drivers/pci/mod.rs: the arms of its two `match`es, in order.
use Prim.Native.String.{String}
use aetherion_os.Base.{ℕ, ◌==◌, ◌&&◌, if◌then◌else◌, List, [], ◌∷◌}
use aetherion_os.Drivers.Pci.Device.{PciDevice}

-- Vendor, device and name.
unfoldable pub named_devices : List (ℕ × ℕ × String)
named_devices =
    (0x8086, 0x9D2F, "Intel USB 3.0 XHCI Controller")
    ∷ (0x8086, 0xA12F, "Intel USB 3.0 XHCI Controller")
    ∷ (0x8086, 0x9DED, "Intel Cannon Point USB 3.1 XHCI")
    ∷ (0x8086, 0xA36D, "Intel Cannon Lake USB 3.1 XHCI")
    ∷ (0x8086, 0x02ED, "Intel Comet Lake USB 3.1 XHCI")
    ∷ (0x8086, 0x43ED, "Intel Tiger Lake USB 3.2 XHCI")
    ∷ (0x8086, 0x51ED, "Intel Alder Lake USB 3.2 XHCI")
    ∷ (0x8086, 0x7A60, "Intel Raptor Lake USB 3.2 XHCI")
    ∷ (0x1022, 0x149C, "AMD USB 3.1 XHCI Controller")
    ∷ (0x1022, 0x43D5, "AMD USB 3.1 XHCI Controller")
    ∷ (0x1022, 0x15E0, "AMD Ryzen USB 3.1 XHCI")
    ∷ (0x1022, 0x15E1, "AMD Ryzen USB 3.1 XHCI")
    ∷ (0x1B21, 0x1142, "ASMedia USB 3.0 XHCI Controller")
    ∷ (0x1B21, 0x2142, "ASMedia USB 3.1 XHCI Controller")
    ∷ (0x1B21, 0x3242, "ASMedia USB 3.2 XHCI Controller")
    ∷ (0x1106, 0x3483, "VIA USB 3.0 XHCI Controller")
    ∷ (0x104C, 0x8241, "TI USB 3.0 XHCI Controller")
    ∷ (0x1912, 0x0014, "Renesas USB 3.0 XHCI Controller")
    ∷ (0x1912, 0x0015, "Renesas USB 3.1 XHCI Controller")
    ∷ (0x8086, 0x15B8, "Intel I219-V Gigabit Ethernet")
    ∷ (0x8086, 0x15D8, "Intel I219-LM Gigabit Ethernet")
    ∷ (0x8086, 0x0D4E, "Intel Ethernet I219")
    ∷ (0x8086, 0x125C, "Intel I210 Gigabit Ethernet")
    ∷ (0x8086, 0x1539, "Intel I211 Gigabit Ethernet")
    ∷ (0x8086, 0x10D3, "Intel 82574L Gigabit Ethernet")
    ∷ (0x8086, 0x2723, "Intel WiFi 6 AX200")
    ∷ (0x8086, 0x2725, "Intel WiFi 6 AX201")
    ∷ (0x8086, 0x51F0, "Intel WiFi 6E AX210")
    ∷ (0x8086, 0x272B, "Intel WiFi 6E AX211")
    ∷ (0x8086, 0x7AF0, "Intel WiFi 6E AX411")
    ∷ (0x8086, 0x24FD, "Intel WiFi 5 AC 9560")
    ∷ (0x8086, 0x2526, "Intel WiFi 5 AC 9260")
    ∷ (0x10EC, 0x8168, "Realtek RTL8111/8168 Gigabit Ethernet")
    ∷ (0x10EC, 0x8125, "Realtek RTL8125 2.5G Ethernet")
    ∷ (0x10EC, 0x8136, "Realtek RTL810xE Fast Ethernet")
    ∷ (0x10EC, 0xB852, "Realtek RTL8852BE WiFi 6")
    ∷ (0x10EC, 0xC852, "Realtek RTL8852CE WiFi 6E")
    ∷ (0x168C, 0x003E, "Qualcomm Atheros QCA6174 WiFi")
    ∷ (0x168C, 0x0042, "Qualcomm Atheros QCA9377 WiFi")
    ∷ (0x168C, 0x003C, "Qualcomm Atheros QCA9565 WiFi")
    ∷ (0x14E4, 0x43A0, "Broadcom BCM4360 WiFi")
    ∷ (0x14E4, 0x43B1, "Broadcom BCM4352 WiFi")
    ∷ (0x14E4, 0x4727, "Broadcom BCM4313 WiFi")
    ∷ (0x8086, 0x0953, "Intel NVMe SSD DC P3520")
    ∷ (0x8086, 0x0A54, "Intel NVMe SSD 660p")
    ∷ (0x8086, 0x0A55, "Intel NVMe SSD 670p")
    ∷ (0x8086, 0xF1A5, "Intel NVMe SSD DC P4510")
    ∷ (0x144D, 0xA808, "Samsung NVMe SSD 970 EVO/PRO")
    ∷ (0x144D, 0xA809, "Samsung NVMe SSD 980 PRO")
    ∷ (0x144D, 0xA80A, "Samsung NVMe SSD 990 PRO")
    ∷ (0x144D, 0xA824, "Samsung NVMe SSD PM9A1")
    ∷ (0x15B7, 0x5002, "WD Black NVMe SSD")
    ∷ (0x15B7, 0x5003, "WD Blue NVMe SSD")
    ∷ (0x8086, 0x02D3, "Intel Comet Lake SATA AHCI")
    ∷ (0x8086, 0x43D3, "Intel Tiger Lake SATA AHCI")
    ∷ (0x8086, 0xA102, "Intel Sunrise Point SATA AHCI")
    ∷ (0x1022, 0x7901, "AMD FCH SATA Controller")
    ∷ (0x1022, 0x7904, "AMD FCH RAID Controller")
    ∷ (0x8086, 0x3E92, "Intel UHD Graphics 630")
    ∷ (0x8086, 0x9BC8, "Intel UHD Graphics 630")
    ∷ (0x8086, 0x4C8A, "Intel Rocket Lake Graphics")
    ∷ (0x8086, 0x4680, "Intel Alder Lake Graphics")
    ∷ (0x10DE, 0x2204, "NVIDIA GeForce RTX 3090")
    ∷ (0x10DE, 0x2206, "NVIDIA GeForce RTX 3080")
    ∷ (0x10DE, 0x2208, "NVIDIA GeForce RTX 3070")
    ∷ (0x10DE, 0x2486, "NVIDIA GeForce RTX 3060")
    ∷ (0x1002, 0x73BF, "AMD Radeon RX 6900 XT")
    ∷ (0x1002, 0x73DF, "AMD Radeon RX 6700 XT")
    ∷ (0x1002, 0x73FF, "AMD Radeon RX 6600 XT")
    ∷ []

-- Class code and name.
unfoldable pub class_names : List (ℕ × String)
class_names =
    (0x00, "Unclassified Device")
    ∷ (0x01, "Mass Storage Controller")
    ∷ (0x02, "Network Controller")
    ∷ (0x03, "Display Controller")
    ∷ (0x04, "Multimedia Controller")
    ∷ (0x05, "Memory Controller")
    ∷ (0x06, "Bridge Device")
    ∷ (0x07, "Communication Controller")
    ∷ (0x08, "System Peripheral")
    ∷ (0x09, "Input Device")
    ∷ (0x0A, "Docking Station")
    ∷ (0x0B, "Processor")
    ∷ (0x0C, "Serial Bus Controller")
    ∷ (0x0D, "Wireless Controller")
    ∷ (0x0E, "Intelligent IO Controller")
    ∷ (0x0F, "Satellite Controller")
    ∷ (0x10, "Encryption Controller")
    ∷ (0x11, "Signal Processing Controller")
    ∷ []

unfoldable pub class_name : List (ℕ × String) → ℕ → String
class_name [] class_code = "Unknown PCI Device"
class_name ((code, name) ∷ arms) class_code =
    if class_code == code then name else class_name arms class_code

unfoldable pub match_name : List (ℕ × ℕ × String) → PciDevice → String
match_name [] d = class_name class_names d.class_code
match_name ((vendor, device, name) ∷ arms) d =
    if d.vendor_id == vendor && d.device_id == device then name else match_name arms d

unfoldable pub device_name : PciDevice → String
device_name d = match_name named_devices d
