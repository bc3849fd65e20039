-- ===== src/Drivers/Sdr/RtlSdr/Range.antt =====
-- The settings of the radio of kernel/src/drivers/sdr/rtlsdr.rs stay in range.
use mathlib.Core.Path.{subst}
use native.Mathlib.Nat.{le-div_iff_mul-le, div-lt_iff_lt-mul}
use aetherion_os.Base.{
  ℕ, ◌+◌, ◌/◌, ◌<◌, ◌≤◌, ◌≡◌, ◌⊎◌, refl, ap, sym, arith, ltb, ◌||◌, true, false, Option, none, some,
  List, [], ◌∷◌, ◌++◌,
}
use aetherion_os.Base.Fallible.{Result, ok, err}
use aetherion_os.Drivers.Usb.Descriptor.{UsbDevice}
use aetherion_os.Drivers.Sdr.RtlSdr.{
  RtlSdr, Transfer, new, attach, tune, set_sample_rate, init, read_samples, freq_to_regs,
  resampling_ratio, get_frequency, get_sample_rate, is_none,
}

pub record IsTuned (s : RtlSdr) : Type 0 where
  pub frequency_low : 24000000 ≤ s.frequency
  pub frequency_high : s.frequency ≤ 1766000000
  pub rate_low : 225000 ≤ s.sample_rate
  pub rate_high : s.sample_rate ≤ 3200000

-- The writes of the start, the last first.
abbrev pub start_writes : List Transfer
start_writes =
    (0x40, 0, 0x02, 0x05, 0x80 ∷ [])
    ∷ (0x40, 0, 0x00, 0x05, 0x40 ∷ [])
    ∷ (0x40, 0, 0x19, 0x00, 0x05 ∷ [])
    ∷ (0x40, 0, 0x16, 0x01, 0x00 ∷ [])
    ∷ (0x40, 0, 0x15, 0x01, 0x00 ∷ [])
    ∷ (0x40, 0, 0x01, 0x01, 0x10 ∷ [])
    ∷ (0x40, 0, 0x01, 0x01, 0x14 ∷ [])
    ∷ []

-- What the start does to a radio with settings in range.
abbrev pub Starts : RtlSdr → Option UsbDevice → Result (Unit {0}) × RtlSdr → Type 0
Starts s none r = r ≡ (err "No USB device attached", s)
Starts s (some device) r = r ≡ (ok tt, record s { transfers = start_writes ++ s.transfers })

-- A setting in range is accepted and read back, and all else stays; one out of range is refused and
-- changes nothing.
pub record Settings (s : RtlSdr) (n : ℕ) : Type 0 where
  pub tuned : 24000000 ≤ n → n ≤ 1766000000 → tune n s ≡ (ok tt, record s { frequency = n })
  pub not_tuned : (n < 24000000) ⊎ (1766000000 < n) → tune n s ≡ (err "Frequency out of range", s)
  pub rated : 225000 ≤ n → n ≤ 3200000 → set_sample_rate n s ≡ (ok tt, record s { sample_rate = n })
  pub not_rated :
      (n < 225000) ⊎ (3200000 < n) → set_sample_rate n s ≡ (err "Sample rate out of range", s)

outside : (n lo hi : ℕ) → (n < lo) ⊎ (hi < n) → ltb n lo || ltb hi n ≡ true
outside n lo hi h = ground arith

inside : (n lo hi : ℕ) → lo ≤ n → n ≤ hi → ltb n lo || ltb hi n ≡ false
inside n lo hi h h' = ground arith

pub settings : (s : RtlSdr) (n : ℕ) → Settings s n
unfolding tune set_sample_rate
settings s n = record {
  tuned = λ h h'. rw (inside n 24000000 1766000000 h h');
  not_tuned = λ h. rw (outside n 24000000 1766000000 h);
  rated = λ h h'. rw (inside n 225000 3200000 h h');
  not_rated = λ h. rw (outside n 225000 3200000 h);
}

init_for : (s : RtlSdr) (o : Option UsbDevice) → s.usb_device ≡ o → IsTuned s → Starts s o (init s)
unfolding init
init_for s none e v = rw (ap is_none e)
init_for s (some device) e v = rw (
  ap is_none e,
  inside s.sample_rate 225000 3200000 v.rate_low v.rate_high,
  inside s.frequency 24000000 1766000000 v.frequency_low v.frequency_high,
)

-- The start of a radio with settings in range.
pub init-Starts : (s : RtlSdr) → IsTuned s → Starts s s.usb_device (init s)
init-Starts s v = init_for s s.usb_device refl v

-- Calls of the driver, with what the caller gives.
pub data Call : Type 0 where
  attaching : UsbDevice → Call
  initing : Call
  tuning : ℕ → Call
  rating : ℕ → Call
  reading : List ℕ → Call

unfoldable pub call : Call → RtlSdr → RtlSdr
call (attaching device) s = (attach device s).1
call initing s = (init s).1
call (tuning freq_hz) s = (tune freq_hz s).1
call (rating rate) s = (set_sample_rate rate s).1
call (reading buffer) s = (read_samples buffer s).1

unfoldable pub calls : List Call → RtlSdr → RtlSdr
unfolding call
calls [] s = s
calls (c ∷ cs) s = calls cs (call c s)

with_writes-IsTuned :
    (s : RtlSdr) (writes : List Transfer) → IsTuned s → IsTuned (record s { transfers = writes })
with_writes-IsTuned s writes v = record {
  frequency_low = v.frequency_low;
  frequency_high = v.frequency_high;
  rate_low = v.rate_low;
  rate_high = v.rate_high;
}

started-IsTuned :
    (s : RtlSdr) (o : Option UsbDevice) (r : Result (Unit {0}) × RtlSdr)
    → Starts s o r
    → IsTuned s
    → IsTuned r.1
started-IsTuned s none r e v = subst (λ (t : Result (Unit {0}) × RtlSdr). IsTuned t.1) (sym e) v
started-IsTuned s (some device) r e v =
    subst (λ (t : Result (Unit {0}) × RtlSdr). IsTuned t.1) (sym e)
      (with_writes-IsTuned s (start_writes ++ s.transfers) v)

call-IsTuned : (c : Call) (s : RtlSdr) → IsTuned s → IsTuned (call c s)
unfolding call attach tune set_sample_rate read_samples
call-IsTuned (attaching device) s v = ground arith
call-IsTuned initing s v = started-IsTuned s s.usb_device (init s) (init-Starts s v) v
call-IsTuned (tuning freq_hz) s v = ground arith
call-IsTuned (rating rate) s v = ground arith
call-IsTuned (reading buffer) s v = ground arith

calls-IsTuned : (cs : List Call) (s : RtlSdr) → IsTuned s → IsTuned (calls cs s)
unfolding calls
calls-IsTuned [] s v = v
calls-IsTuned (c ∷ cs) s v = calls-IsTuned cs (call c s) (call-IsTuned c s v)

new-IsTuned : IsTuned new
unfolding new
new-IsTuned = record {
  frequency_low = omega arith;
  frequency_high = omega arith;
  rate_low = omega arith;
  rate_high = omega arith;
}

-- Whatever is called, from a new radio on the settings stay in range, the local oscillator is the
-- frequency and 3570000 without a wrap, and the resampling ratio lies between 9 and 128.
pub record InRange (s : RtlSdr) : Type 0 where
  pub tuned : IsTuned s
  pub oscillator : (freq_to_regs (get_frequency s)).0 ≡ get_frequency s + 3570000
  pub ratio_low : 9 ≤ resampling_ratio (get_sample_rate s)
  pub ratio_high : resampling_ratio (get_sample_rate s) ≤ 128

ratio_bounds :
    (rate : ℕ) → 225000 ≤ rate → rate ≤ 3200000 → (9 ≤ 28800000 / rate) × (28800000 / rate < 129)
ratio_bounds rate lo hi =
    let pos : 0 < rate = omega arith in
    (
      (le-div_iff_mul-le {x = 9} {y = 28800000} pos).1 (omega arith),
      (div-lt_iff_lt-mul {x = 28800000} {y = 129} pos).1 (omega arith),
    )

-- From a new radio on, whatever is called: the frequency and the sample rate lie in their ranges,
-- the local oscillator is the frequency and 3570000 without a wrap, and the resampling ratio lies
-- between 9 and 128.
pub calls-InRange : (cs : List Call) → InRange (calls cs new)
unfolding freq_to_regs resampling_ratio get_frequency get_sample_rate
calls-InRange cs =
    let v = calls-IsTuned cs new new-IsTuned in
    let q = ratio_bounds (calls cs new).sample_rate v.rate_low v.rate_high in
    record {
      tuned = v;
      oscillator = omega (arith, v.frequency_high);
      ratio_low = q.0;
      ratio_high = omega (arith, q.1);
    }
