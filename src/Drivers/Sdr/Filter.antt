-- ===== src/Drivers/Sdr/Filter.antt =====
-- The filter and the decimator of kernel/src/drivers/sdr/demodulator.rs, over the operations of `f32`
-- and of `libm` as a parameter.
pub mod Window
pub mod Stream
mod Tests
use aetherion_os.Base.{
  ℕ, zero, suc, ◌+◌, ◌-◌, ◌*◌, ◌/◌, ◌%◌, ◌==◌, ltb, if◌then◌else◌, Bool, List, [], ◌∷◌, ◌++◌, map,
  length, replicate, set, Run, done, panic, ◌>>=◌, at,
}
use aetherion_os.Base.Word.{add_usize, sub_usize}
use aetherion_os.Ai.Tensor.{Float, store, fold}

-- What the filter takes from `core` and `libm` besides the operations of `f32`; `offset i center`
-- is `(i as i32 - center) as f32`.
pub record Trig (F : Type 0) : Type 0 where
  pub pi : F
  pub sinf : F → F
  pub cosf : F → F
  pub offset : ℕ → ℕ → F

pub record LowPassFilter (F : Type 0) : Type 0 where
  pub coefficients : List F
  pub buffer : List F
  pub index : ℕ

pub record Decimator (F : Type 0) : Type 0 where
  pub factor : ℕ
  pub counter : ℕ
  pub filter : LowPassFilter F

-- `x % n`, which panics at 0.
abbrev pub rem : ℕ → ℕ → Run ℕ
rem x n = if n == 0 then panic else done (x % n)

module _ (float : Float) where
  -- The loop over the coefficients, from coefficient `i` on.
  pub convolve : LowPassFilter float.F → List float.F → ℕ → float.F → Run float.F
  convolve f [] i output = done output
  convolve f (coeff ∷ coeffs) i output = do
    buf_idx ← rem (add_usize f.index i) (length f.buffer)
    x ← at f.buffer buf_idx
    convolve f coeffs (i + 1) (float.add output (float.mul coeff x))

  pub filter : LowPassFilter float.F → float.F → Run (float.F × LowPassFilter float.F)
  unfolding convolve
  filter f input = do
    buffer ← store f.buffer f.index input
    index ← rem (add_usize f.index 1) (length buffer)
    let f' = record f { buffer = buffer; index = index }
    output ← convolve f' f'.coefficients 0 float.zero
    done (output, f')

  pub filter_batch :
      LowPassFilter float.F → List float.F → Run (List float.F × LowPassFilter float.F)
  filter_batch f [] = done ([], f)
  filter_batch f (x ∷ xs) = do
    r ← filter f x
    rest ← filter_batch r.1 xs
    done (r.0 ∷ rest.0, rest.1)

  -- The loop of `decimate`.
  pub decimate_loop :
      Decimator float.F → List float.F → List float.F → Run (List float.F × Decimator float.F)
  decimate_loop d [] output = done (output, d)
  decimate_loop d (sample ∷ samples) output = do
    r ← filter d.filter sample
    let output' = if d.counter == 0 then output ++ (r.0 ∷ []) else output
    counter ← rem (add_usize d.counter 1) d.factor
    decimate_loop (record d { counter = counter; filter = r.1 }) samples output'

  -- The division for the capacity panics at factor 0.
  pub decimate : Decimator float.F → List float.F → Run (List float.F × Decimator float.F)
  unfolding decimate_loop
  decimate d input = if d.factor == 0 then panic else decimate_loop d input []

module _ (float : Float) (trig : Trig float.F) where
  pub coefficient : float.F → ℕ → ℕ → float.F
  coefficient fc num_taps i =
      let center = num_taps / 2 in
      let two_pi = float.mul (float.decimal 2 0) trig.pi in
      let coeff =
        if i == center
        then float.mul (float.decimal 2 0) fc
        else float.div (trig.sinf (float.mul (float.mul two_pi fc) (trig.offset i center)))
            (float.mul trig.pi (trig.offset i center)) in
      let window = float.sub (float.decimal 54 2) (
        float.mul (float.decimal 46 2) (
          trig.cosf (
            float.div (float.mul two_pi (float.of_usize i))
              (float.of_usize (sub_usize num_taps 1))))) in
      float.mul coeff window

  -- `for i in 0..num_taps`, with the rounds left.
  pub taps : float.F → ℕ → ℕ → ℕ → List float.F
  unfolding coefficient
  taps fc num_taps zero i = []
  taps fc num_taps (suc left) i = coefficient fc num_taps i ∷ taps fc num_taps left (i + 1)

  pub new : float.F → float.F → ℕ → LowPassFilter float.F
  unfolding taps
  new cutoff sample_rate num_taps =
      let fc = float.div cutoff sample_rate in
      let coefficients = taps fc num_taps num_taps 0 in
      let sum = fold float.add float.zero coefficients in
      record {
        coefficients = map (λ c. float.div c sum) coefficients;
        buffer = replicate num_taps float.zero;
        index = 0;
      }

  pub new_decimator : ℕ → float.F → Decimator float.F
  unfolding new
  new_decimator factor sample_rate =
      let cutoff = float.div sample_rate (float.mul (float.decimal 2 0) (float.of_usize factor)) in
      record { factor = factor; counter = 0; filter = new cutoff sample_rate 51 }
