-- ===== src/Drivers/Sdr/RtlSdr.antt =====
-- kernel/src/drivers/sdr/rtlsdr.rs: the radio's settings, and the registers that it writes. The
-- control transfer of the source is empty; the model keeps the transfers as a list, the last first.
pub mod Range
mod Tests
use Prim.Native.String.{String}
use aetherion_os.Base.{
  ℕ, ◌+◌, ◌/◌, ◌%◌, ◌==◌, ◌!=◌, ◌||◌, ltb, if◌then◌else◌, Bool, Option, none, some, List, [], ◌∷◌,
}
use aetherion_os.Base.Fallible.{Result, ok, err}
use aetherion_os.Base.Word.{u32_mod}
use aetherion_os.Drivers.Usb.Descriptor.{UsbDevice}

-- A control transfer: the request type, the request, the value, the index and the bytes.
abbrev pub Transfer : Type 0
Transfer = ℕ × ℕ × ℕ × ℕ × List ℕ

pub record RtlSdr : Type 0 where
  pub usb_device : Option UsbDevice
  pub frequency : ℕ
  pub sample_rate : ℕ
  pub gain : ℕ
  pub buffer : List ℕ
  pub transfers : List Transfer

abbrev pub ctrl_in : ℕ
ctrl_in = 0xC0

abbrev pub ctrl_out : ℕ
ctrl_out = 0x40

pub data TunerType : Type 0 where
  unknown : TunerType
  e4000 : TunerType
  fc0012 : TunerType
  fc0013 : TunerType
  fc2580 : TunerType
  r820t : TunerType
  r828d : TunerType

-- A method: the result, and the radio after it.
abbrev pub Method : Type 0 → Type 0
Method A = RtlSdr → Result A × RtlSdr

-- `m?`
infixl 5 ◌>>=◌ ◌>>◌
abbrev pub and_then : {A B : Type 0} → Result A × RtlSdr → (A → Method B) → Result B × RtlSdr
and_then (ok a, s) f = f a s
and_then (err message, s) f = (err message, s)

abbrev pub ◌>>=◌ : {A B : Type 0} → Method A → (A → Method B) → Method B
◌>>=◌ m f s = and_then (m s) f

abbrev pub ◌>>◌ : {B : Type 0} → Method (Unit {0}) → Method B → Method B
m >> k = m >>= λ _. k

abbrev pub pure : {A : Type 0} → A → Method A
pure a s = (ok a, s)

unfoldable pub new : RtlSdr
new = record {
  usb_device = none;
  frequency = 100000000;
  sample_rate = 2048000;
  gain = 0;
  buffer = [];
  transfers = [];
}

unfoldable pub attach : UsbDevice → Method (Unit {0})
attach device s =
    if device.vendor_id != 0x0bda
    then (err "Not an RTL-SDR device", s)
    else (ok tt, record s { usb_device = some device })

pub control_transfer : ℕ → ℕ → ℕ → ℕ → List ℕ → Method (Unit {0})
control_transfer request_type request value index bytes s =
    (ok tt, record s { transfers = (request_type, request, value, index, bytes) ∷ s.transfers })

-- The transfer leaves the byte of the buffer at 0.
pub read_reg : ℕ → ℕ → Method ℕ
unfolding control_transfer
read_reg block addr = do control_transfer ctrl_in 0 addr block (0 ∷ []); pure 0

pub write_reg : ℕ → ℕ → ℕ → Method (Unit {0})
unfolding control_transfer
write_reg block addr value = control_transfer ctrl_out 0 addr block (value ∷ [])

pub init_demod : Method (Unit {0})
unfolding write_reg
init_demod = do
  write_reg 0x01 0x01 0x14
  write_reg 0x01 0x01 0x10
  write_reg 0x01 0x15 0x00
  write_reg 0x01 0x16 0x00
  write_reg 0x00 0x19 0x05
  pure tt

pub init_r820t : Method (Unit {0})
unfolding write_reg
init_r820t = do write_reg 0x05 0x00 0x40; write_reg 0x05 0x02 0x80; pure tt

pub init_tuner : Method TunerType
unfolding init_r820t
init_tuner = do init_r820t; pure r820t

-- The local oscillator, the reference and the intermediate frequency.
pub freq_to_regs : ℕ → ℕ × ℕ × ℕ
freq_to_regs freq =
    let xtal_freq : ℕ = 28800000 in
    let if_freq : ℕ = 3570000 in ((freq + if_freq) % u32_mod, xtal_freq, if_freq)

unfoldable pub tune : ℕ → Method (Unit {0})
tune freq_hz s =
    if ltb freq_hz 24000000 || ltb 1766000000 freq_hz
    then (err "Frequency out of range", s)
    else (ok tt, record s { frequency = freq_hz })

-- `xtal_freq / rate`, which the code computes and does not use.
pub resampling_ratio : ℕ → ℕ
resampling_ratio rate = 28800000 / rate

unfoldable pub set_sample_rate : ℕ → Method (Unit {0})
set_sample_rate rate s =
    if ltb rate 225000 || ltb 3200000 rate
    then (err "Sample rate out of range", s)
    else (ok tt, record s { sample_rate = rate })

abbrev pub is_none : {A : Type 0} → Option A → Bool
is_none none = Bool.true
is_none (some a) = Bool.false

unfoldable pub init : Method (Unit {0})
unfolding init_demod init_tuner set_sample_rate tune
init s =
    if is_none s.usb_device
    then (err "No USB device attached", s)
    else (let start : Method (Unit {0}) = (do
      init_demod
      tuner ← init_tuner
      (λ s'. set_sample_rate s'.sample_rate s')
      (λ s'. tune s'.frequency s')) in
        start s)

pub read_samples : List ℕ → Method ℕ
read_samples buffer s = if is_none s.usb_device then (err "No device attached", s) else (ok 0, s)

unfoldable pub get_frequency : RtlSdr → ℕ
get_frequency s = s.frequency

pub get_sample_rate : RtlSdr → ℕ
get_sample_rate s = s.sample_rate

-- `Default::default`
pub default : RtlSdr
unfolding new
default = new
