-- ===== src/Drivers/Sdr/Demodulator.antt =====
-- The samples of kernel/src/drivers/sdr/mod.rs and the FM and AM demodulators of
-- kernel/src/drivers/sdr/demodulator.rs, over the operations of `f32` and of `libm` as parameters.
pub mod Batches
mod Tests
use aetherion_os.Base.{ℕ, zero, suc, if◌then◌else◌, Bool, Option, none, some, List, [], ◌∷◌, ◌++◌}
use aetherion_os.Base.Int.{ℤ, sub_ℕ}
use aetherion_os.Ai.Tensor.{Float}

infixl 5 ◌>>=◌
abbrev pub ◌>>=◌ {ℓ κ} : {A : Type ℓ} {B : Type κ} → Option A → (A → Option B) → Option B
none >>= f = none
some a >>= f = f a

-- What the demodulators take from `core` and `libm` besides the operations of `Float`: `of_i16` and
-- `to_i16` are the casts, which saturate.
pub record Signal (F : Type 0) : Type 0 where
  pub pi : F
  pub neg : F → F
  pub lt : F → F → Bool
  pub atan2f : F → F → F
  pub of_i16 : ℤ → F
  pub to_i16 : F → ℤ

pub record IqSample : Type 0 where
  pub i : ℤ
  pub q : ℤ

abbrev pub from_u8 : ℕ → ℕ → IqSample
from_u8 i q = record { i = sub_ℕ i 127; q = sub_ℕ q 127 }

pub record FmDemodulator (F : Type 0) : Type 0 where
  pub sample_rate : ℕ
  pub prev_phase : F
  pub dc_offset_i : F
  pub dc_offset_q : F
  pub audio_buffer : List ℤ

pub record AmDemodulator (F : Type 0) : Type 0 where
  pub dc_offset : F

module _ (float : Float) (signal : Signal float.F) where
  abbrev pub magnitude : IqSample → float.F
  magnitude s =
      let i = signal.of_i16 s.i in
      let q = signal.of_i16 s.q in float.sqrtf (float.add (float.mul i i) (float.mul q q))

  abbrev pub phase : IqSample → float.F
  phase s = signal.atan2f (signal.of_i16 s.q) (signal.of_i16 s.i)

  unfoldable pub new_fm : ℕ → FmDemodulator float.F
  new_fm sample_rate = record {
    sample_rate = sample_rate;
    prev_phase = float.zero;
    dc_offset_i = float.zero;
    dc_offset_q = float.zero;
    audio_buffer = [];
  }

  abbrev two_pi : float.F
  two_pi = float.mul (float.decimal 2 0) signal.pi

  -- `while delta > PI`, with the rounds left; without a round left there is no result.
  unfoldable pub wrap_down : ℕ → float.F → Option float.F
  wrap_down zero delta = none
  wrap_down (suc fuel) delta =
      let rest = wrap_down fuel (float.sub delta two_pi) in
      if signal.lt signal.pi delta then rest else some delta

  -- `while delta < -PI`
  unfoldable pub wrap_up : ℕ → float.F → Option float.F
  wrap_up zero delta = none
  wrap_up (suc fuel) delta =
      let rest = wrap_up fuel (float.add delta two_pi) in
      if signal.lt delta (signal.neg signal.pi) then rest else some delta

  -- Both loops.
  unfoldable pub wrap_phase : ℕ → float.F → Option float.F
  unfolding wrap_down wrap_up
  wrap_phase fuel delta = do down ← wrap_down fuel delta; wrap_up fuel down

  -- `dc_offset * 0.99 + x * 0.01`
  abbrev pub average : float.F → float.F → float.F
  average dc_offset x =
      float.add (float.mul dc_offset (float.decimal 99 2)) (float.mul x (float.decimal 1 2))

  -- The demodulator after the phase `angle` of a sample, without the audio of the sample.
  abbrev pub track : FmDemodulator float.F → IqSample → float.F → FmDemodulator float.F
  track d sample angle = record d {
    prev_phase = angle;
    dc_offset_i = average d.dc_offset_i (signal.of_i16 sample.i);
    dc_offset_q = average d.dc_offset_q (signal.of_i16 sample.q);
  }

  -- The phase of a sample less the offset.
  abbrev pub angle_of : FmDemodulator float.F → IqSample → float.F
  angle_of d sample =
      signal.atan2f (float.sub (signal.of_i16 sample.q) d.dc_offset_q)
        (float.sub (signal.of_i16 sample.i) d.dc_offset_i)

  abbrev pub fm_audio : float.F → ℤ
  fm_audio delta = signal.to_i16 (float.div (float.mul delta (float.decimal 32767 0)) signal.pi)

  unfoldable pub demodulate_fm_sample :
      ℕ → FmDemodulator float.F → IqSample → Option (FmDemodulator float.F)
  unfolding wrap_phase
  demodulate_fm_sample fuel d sample = do
    delta ← wrap_phase fuel (float.sub (angle_of d sample) d.prev_phase)
    some (record (track d sample (angle_of d sample)) {
      audio_buffer = d.audio_buffer ++ (fm_audio delta ∷ []);
    })

  unfoldable pub demodulate_fm_loop :
      ℕ → FmDemodulator float.F → List IqSample → Option (FmDemodulator float.F)
  unfolding demodulate_fm_sample
  demodulate_fm_loop fuel d [] = some d
  demodulate_fm_loop fuel d (sample ∷ samples) = do
    d' ← demodulate_fm_sample fuel d sample
    demodulate_fm_loop fuel d' samples

  unfoldable pub demodulate_fm :
      ℕ → FmDemodulator float.F → List IqSample → Option (List ℤ × FmDemodulator float.F)
  unfolding demodulate_fm_loop
  demodulate_fm fuel d iq_samples = do
    d' ← demodulate_fm_loop fuel (record d { audio_buffer = [] }) iq_samples
    some (d'.audio_buffer, d')

  unfoldable pub emphasize : float.F → float.F → List ℤ → List ℤ
  emphasize alpha prev [] = []
  emphasize alpha prev (sample ∷ samples) =
      let output =
        float.add (float.mul alpha (signal.of_i16 sample))
          (float.mul (float.sub float.one alpha) prev) in
      signal.to_i16 output ∷ emphasize alpha output samples

  unfoldable pub deemphasis : List ℤ → List ℤ
  unfolding emphasize
  deemphasis audio =
      let alpha = float.div float.one (
        float.add float.one
          (float.mul (float.mul two_pi (float.decimal 48000 0)) (float.decimal 75 6))) in
      emphasize alpha float.zero audio

  unfoldable pub new_am : AmDemodulator float.F
  new_am = record { dc_offset = float.zero }

  unfoldable pub demodulate_am :
      AmDemodulator float.F → List IqSample → List ℤ × AmDemodulator float.F
  demodulate_am d [] = ([], d)
  demodulate_am d (sample ∷ samples) =
      let dc_offset = average d.dc_offset (magnitude sample) in
      let scaled =
        signal.to_i16
          (float.mul (float.sub (magnitude sample) dc_offset) (float.decimal 32767 2)) in
      let rest = demodulate_am (record d { dc_offset = dc_offset }) samples in
      (scaled ∷ rest.0, rest.1)
