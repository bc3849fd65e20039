-- ===== src/Drivers/Sdr/Demodulator/Tests.antt =====
-- The FM demodulator over whole numbers in place of floats.
use aetherion_os.Base.{ℕ, ◌+◌, ◌%◌, ◌<◌, ◌≡◌, refl, arith, [], ◌∷◌, ltb, some, List}
use aetherion_os.Base.Int.{pos, pos_part}
use aetherion_os.Ai.Tensor.Whole.{whole}
use aetherion_os.Drivers.Sdr.Demodulator.{Signal, IqSample, from_u8, new_fm, demodulate_fm}
use aetherion_os.Drivers.Sdr.Demodulator.Batches.{IsCircle, Batches, demodulate_fm-Batches}

-- A turn is 8, and phases are the whole numbers below 4.
abbrev whole_signal : Signal ℕ
whole_signal = record {
  pi = 4;
  neg = λ x. 0;
  lt = ltb;
  atan2f = λ y x. (y + x) % 4;
  of_i16 = pos_part;
  to_i16 = pos;
}

whole_signal-IsCircle : IsCircle whole whole_signal
whole_signal-IsCircle = record {
  Phase = λ x. x < 4;
  zero_phase = omega arith;
  atan2f_phase = λ y x. omega arith;
  below = λ a b ha hb. ground arith;
  above = λ a b ha hb. ground arith;
  turned = λ a b ha hb h. ground arith;
}

abbrev samples : List IqSample
samples = from_u8 128 129 ∷ from_u8 130 127 ∷ []

demodulate_fm_run :
    demodulate_fm whole whole_signal 2 (new_fm whole whole_signal 250000) samples
    ≡ some (
      pos 24575 ∷ pos 0 ∷ [],
      record {
        sample_rate = 250000;
        prev_phase = 3;
        dc_offset_i = 0;
        dc_offset_q = 0;
        audio_buffer = pos 24575 ∷ pos 0 ∷ [];
      },
    )
unfolding demodulate_fm new_fm
demodulate_fm_run = refl

demodulate_fm-Batches_example :
    Batches whole whole_signal whole_signal-IsCircle 2
      (new_fm whole whole_signal 250000)
      samples
      samples
unfolding new_fm
demodulate_fm-Batches_example =
    demodulate_fm-Batches whole whole_signal whole_signal-IsCircle 0
      (new_fm whole whole_signal 250000) samples samples whole_signal-IsCircle.zero_phase
