-- ===== src/Drivers/Sdr/Filter/Tests.antt =====
-- The filter and the decimator over whole numbers in place of floats.
use aetherion_os.Base.{ℕ, zero, suc, ◌+◌, ◌%◌, get_or, ◌<◌, ◌≡◌, refl, arith, [], ◌∷◌, Returns}
use aetherion_os.Ai.Tensor.Whole.{whole}
use aetherion_os.Drivers.Sdr.Filter.{LowPassFilter, Trig, filter_batch, decimate, new_decimator}
use aetherion_os.Drivers.Sdr.Filter.Window.{IsFilter}
use aetherion_os.Drivers.Sdr.Filter.Stream.{
  Filters, filter_batch-Filters, Decimates, decimate-Decimates,
}

abbrev whole_trig : Trig ℕ
whole_trig = record { pi = 3; sinf = λ x. x; cosf = λ x. x; offset = λ i center. i }

-- Three taps, with 5 the latest sample and 7 the oldest.
abbrev three_taps : LowPassFilter ℕ
three_taps = record { coefficients = 1 ∷ 2 ∷ 3 ∷ []; buffer = 4 ∷ 5 ∷ 7 ∷ []; index = 2 }

three_taps-IsFilter : IsFilter whole three_taps (7 ∷ 4 ∷ 5 ∷ [])
three_taps-IsFilter = record {
  ring = record { size = refl; inside = omega arith; small = omega arith; values = window };
  matched = refl;
}
  where
    window :
        (i : ℕ)
        → i < 3
        → get_or (4 ∷ 5 ∷ 7 ∷ []) ((2 + i) % 3) 0 ≡ get_or {A = ℕ} (7 ∷ 4 ∷ 5 ∷ []) i 0
    window zero h = refl
    window (suc zero) h = refl
    window (suc (suc zero)) h = refl
    window (suc (suc (suc i))) h = absurd (omega arith)

filter_batch-Filters_example :
    Returns
      (filter_batch whole three_taps (1 ∷ 6 ∷ []))
      (Filters whole three_taps (7 ∷ 4 ∷ 5 ∷ []) (1 ∷ 6 ∷ []))
filter_batch-Filters_example =
    filter_batch-Filters whole three_taps (7 ∷ 4 ∷ 5 ∷ []) (1 ∷ 6 ∷ []) three_taps-IsFilter

decimate-Decimates_example :
    Returns
      (decimate whole (new_decimator whole whole_trig 2 48000) (1 ∷ 6 ∷ 8 ∷ []))
      (λ r. Decimates whole whole_trig 2 48000 (1 ∷ 6 ∷ 8 ∷ []) r.0)
decimate-Decimates_example =
    decimate-Decimates whole whole_trig 2 48000 (1 ∷ 6 ∷ 8 ∷ []) (omega arith) (omega arith)
