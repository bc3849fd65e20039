-- ===== src/Drivers/Sdr/Filter/Stream.antt =====
-- Batches through the filter and the decimator of kernel/src/drivers/sdr/demodulator.rs.
use mathlib.Core.List.{append-nil, append_assoc}
use aetherion_os.Base.{
  ℕ, zero, suc, ◌+◌, ◌-◌, ◌*◌, ◌%◌, ◌^◌, ◌<◌, ◌≤◌, ◌≡◌, ◌≢◌, ◌⊎◌, inl, inr, refl, ap, ◌∙◌, sym,
  arith, ne→==, ◌==◌, Bool, false, true, if◌then◌else◌, List, [], ◌∷◌, ◌++◌, length, length-map,
  length-replicate, get_elem?, get_or-replicate, replicate, done, panic, Returns, dec_lt,
}
use mathlib.Core.Path.{subst}
use native.Mathlib.Nat.{mod-eq_of_lt, mod-lt, mod_self}
use aetherion_os.Base.Word.{usize_mod, add_usize}
use aetherion_os.Ai.Tensor.{Float}
use aetherion_os.Drivers.Sdr.Filter.{
  LowPassFilter, Decimator, Trig, rem, filter, filter_batch, decimate, decimate_loop, new,
  new_decimator, taps,
}
use aetherion_os.Drivers.Sdr.Filter.Window.{IsFilter, fir, next, filter-fir}

-- The window after a sample.
abbrev pub moved : {F : Type 0} → List F → F → List F
moved [] x = []
moved (x₀ ∷ w) x = w ++ (x ∷ [])

-- The sums over the windows that samples move through.
pub filtered : (float : Float) → List float.F → List float.F → List float.F → List float.F
filtered float cs w [] = []
filtered float cs w (x ∷ xs) =
    fir float cs (moved w x) float.zero ∷ filtered float cs (moved w x) xs

-- The window in the end.
pub window_after : {F : Type 0} → List F → List F → List F
window_after w [] = w
window_after w (x ∷ xs) = window_after (moved w x) xs

module _ (float : Float) where
  no_empty : (f : LowPassFilter float.F) → IsFilter float f [] → ⊥
  no_empty f v = omega (arith, v.ring.inside)

  -- One sample, for any window.
  step :
      (f : LowPassFilter float.F) (w : List float.F) (x : float.F)
      → IsFilter float f w
      → (filter float f x
          ≡ done (fir float f.coefficients (moved w x) float.zero, next float f (length w) x))
        × IsFilter float (next float f (length w) x) (moved w x)
  step f [] x v = absurd (no_empty f v)
  step f (x₀ ∷ w) x v = filter-fir float f x₀ x w v

  -- The filter with its ring after some samples.
  pub record Filters (f : LowPassFilter float.F) (w xs : List float.F)
      (r : List float.F × LowPassFilter float.F) : Type 0 where
    pub output : r.0 ≡ filtered float f.coefficients w xs
    pub coefficients : r.1.coefficients ≡ f.coefficients
    pub window : IsFilter float r.1 (window_after w xs)

  -- On a filter whose ring holds a window of as many samples as it has taps, and no more than
  -- 2^32, a batch does not panic. For each sample it gives the sum, over the window that the
  -- sample has moved on, of the products with the coefficients in the order of the loop;
  -- afterwards the coefficients are the same and the ring holds the window that the batch has
  -- moved on.
  pub filter_batch-Filters :
      (f : LowPassFilter float.F) (w xs : List float.F)
      → IsFilter float f w
      → Returns (filter_batch float f xs) (Filters f w xs)
  unfolding filter_batch filtered window_after
  filter_batch-Filters f w [] v =
      (([], f), refl, record { output = refl; coefficients = refl; window = v })
  filter_batch-Filters f w (x ∷ xs) v =
      let (run, v') = step f w x v in
      let (r, run', g) = filter_batch-Filters (next float f (length w) x) (moved w x) xs v' in
      let y = fir float f.coefficients (moved w x) float.zero in
      (
        (y ∷ r.0, r.1),
        rw (run, run'),
        record {
          output = ap (λ (t : List float.F). y ∷ t) g.output;
          coefficients = g.coefficients;
          window = g.window;
        },
      )

  -- Every `factor`-th element, from the one on at which the counter is 0.
  pub thinned : ℕ → ℕ → List float.F → List float.F
  thinned factor counter [] = []
  thinned factor counter (y ∷ ys) =
      (if counter == 0 then y ∷ [] else []) ++ thinned factor ((counter + 1) % factor) ys

  decimate_loop-thinned :
      (d : Decimator float.F) (w xs output : List float.F)
      → IsFilter float d.filter w
      → d.factor ≢ 0
      → d.factor < usize_mod
      → d.counter < d.factor
      → Returns (decimate_loop float d xs output) (λ r.
        (r.0 ≡ output ++ thinned d.factor d.counter (filtered float d.filter.coefficients w xs))
        × (r.1.counter < r.1.factor)
        × (r.1.factor ≡ d.factor)
        × IsFilter float r.1.filter (window_after w xs))
  unfolding decimate_loop thinned filtered window_after
  decimate_loop-thinned d w [] output v nonzero small below =
      ((output, d), refl, (sym (append-nil output), below, refl, v))
  decimate_loop-thinned d w (x ∷ xs) output v nonzero small below =
      let (run, v') = step d.filter w x v in
      let y = fir float d.filter.coefficients (moved w x) float.zero in
      let count : rem (add_usize d.counter 1) d.factor ≡ done ((d.counter + 1) % d.factor) =
        rw (ne→== d.factor 0 nonzero)
          (ap (λ (t : ℕ). done (t % d.factor)) (mod-eq_of_lt (omega arith))) in
      let output' = if d.counter == 0 then output ++ (y ∷ []) else output in
      let kept : output' ≡ output ++ (if d.counter == 0 then y ∷ [] else []) =
        pick (d.counter == 0) output y in
      let d' = record d {
        counter = (d.counter + 1) % d.factor;
        filter = next float d.filter (length w) x;
      } in
      let (r, run', (out, c, fa, win)) =
        decimate_loop-thinned d' (moved w x) xs output' v' nonzero small
          (mod-lt (d.counter + 1) (omega arith)) in
      (
        r,
        rw (run, count) run',
        (
          out
              ∙ ap
                  (λ (t : List float.F).
                    t
                    ++ thinned d.factor ((d.counter + 1) % d.factor)
                        (filtered float d.filter.coefficients (moved w x) xs))
                  kept
              ∙ append_assoc output _ _,
          c,
          fa,
          win,
        ),
      )
    where
      pick :
          (b : Bool) (out : List float.F) (y : float.F)
          → (if b then out ++ (y ∷ []) else out) ≡ out ++ (if b then y ∷ [] else [])
      pick true out y = refl
      pick false out y = sym (append-nil out)

-- `s` samples are left until the counter is 0.
abbrev Phase : ℕ → ℕ → ℕ → Type 0
Phase factor counter s = ((counter ≡ 0) × (s ≡ 0)) ⊎ ((0 < counter) × (s + counter ≡ factor))

-- After a sample the wait is one shorter, or starts again.
Phase-step :
    (factor counter s : ℕ)
    → counter < factor
    → Phase factor counter s
    → Phase factor ((counter + 1) % factor) (if s == 0 then factor - 1 else s - 1)
Phase-step factor counter s h p = elim (dec_lt (counter + 1) factor) [
  | yes more ↦
      rw (mod-eq_of_lt more)
        (elim p [ inl start ↦ inr (ground arith) | inr wait ↦ inr (ground arith) ])
  | no end ↦
      let e : counter + 1 ≡ factor = omega arith in
      let z : (counter + 1) % factor ≡ 0 = ap (λ (t : ℕ). t % factor) e ∙ mod_self factor in
      rw z (elim p [ inl start ↦ inl (refl, ground arith) | inr wait ↦ inl (refl, ground arith) ])
]

-- The element at a place some steps later is the one of the rest.
later :
    {F : Type 0} (y : F) (ys : List F) (i j : ℕ) → i ≡ suc j → get_elem? (y ∷ ys) i ≡ get_elem? ys j
later y ys i j e = ap (get_elem? (y ∷ ys)) e

module _ (float : Float) where
  thinned_spaced :
      (factor counter s k : ℕ) (ys : List float.F)
      → counter < factor
      → Phase factor counter s
      → get_elem? (thinned float factor counter ys) k ≡ get_elem? ys (s + k * factor)
  unfolding thinned
  thinned_spaced factor counter s k [] h p = refl
  thinned_spaced factor zero s zero (y ∷ ys) h p =
      let e : s + 0 * factor ≡ 0 = ground arith in sym (ap (get_elem? (y ∷ ys)) e)
  thinned_spaced factor zero s (suc k) (y ∷ ys) h p =
      let s₀ : s ≡ 0 = ground arith in
      let next_phase : Phase factor ((0 + 1) % factor) (factor - 1) =
        subst (λ (t : ℕ). Phase factor ((0 + 1) % factor) (if t == 0 then factor - 1 else t - 1)) s₀
          (Phase-step factor 0 s h p) in
      thinned_spaced factor ((0 + 1) % factor) (factor - 1) k ys (mod-lt (0 + 1) (omega arith))
        next_phase
      ∙ sym (later y ys (s + suc k * factor) (factor - 1 + k * factor) (omega arith))
  thinned_spaced factor (suc counter) s k (y ∷ ys) h p =
      let pos : 0 < s = ground arith in
      let differ : (s == 0) ≡ false = ground arith in
      let next_phase : Phase factor ((suc counter + 1) % factor) (s - 1) =
        subst
          (λ (b : Bool).
            Phase factor ((suc counter + 1) % factor) (if b then factor - 1 else s - 1))
          differ (Phase-step factor (suc counter) s h p) in
      let skipped : (suc counter == 0) ≡ false = ne→== (suc counter) 0 (omega arith) in
      ap
        (λ (b : Bool).
          get_elem?
            ((if b then y ∷ [] else []) ++ thinned float factor ((suc counter + 1) % factor) ys) k)
        skipped
      ∙ thinned_spaced factor ((suc counter + 1) % factor) (s - 1) k ys
          (mod-lt (suc counter + 1) (omega arith)) next_phase
      ∙ sym (later y ys (s + k * factor) (s - 1 + k * factor) (omega arith))

  length-taps :
      (fc : float.F) (trig : Trig float.F) (num_taps left i : ℕ)
      → length (taps float trig fc num_taps left i) ≡ left
  unfolding taps
  length-taps fc trig num_taps zero i = refl
  length-taps fc trig num_taps (suc left) i = ap suc (length-taps fc trig num_taps left (i + 1))

  -- A new filter holds a window of zeros.
  new-IsFilter :
      (trig : Trig float.F) (cutoff sample_rate : float.F) (num_taps : ℕ)
      → 0 < num_taps
      → num_taps ≤ 2 ^ 32
      → IsFilter float (new float trig cutoff sample_rate num_taps) (replicate num_taps float.zero)
  unfolding new
  new-IsFilter trig cutoff sample_rate num_taps pos small =
      let n = length-replicate num_taps float.zero in
      let all_zero = λ (i : ℕ). get_or-replicate num_taps float.zero i in
      record {
        ring = record {
          size = refl;
          inside = omega (arith, n);
          small = omega (arith, n);
          values = λ i lt.
              all_zero ((0 + i) % length (replicate num_taps float.zero)) ∙ sym (all_zero i);
        };
        matched = length-map _ _ ∙ length-taps _ trig num_taps num_taps 0 ∙ sym n;
      }

-- What a new decimator makes of samples: the filter's results at every `factor`-th place, from the
-- first on, where the window of 51 samples is 0 before them.
pub record Decimates (float : Float) (trig : Trig float.F) (factor : ℕ) (sample_rate : float.F)
    (xs out : List float.F) : Type 0 where
  pub spaced :
      (k : ℕ)
      → get_elem? out k
        ≡ get_elem?
            (filtered float
              (new_decimator float trig factor sample_rate).filter.coefficients
              (replicate 51 float.zero)
              xs)
            (k * factor)

-- A new decimator with a factor above 0 that fits a usize does not panic, and the k-th sample that
-- it gives is the filtered sample at k times the factor, or none if there is no such sample.
pub decimate-Decimates :
    (float : Float) (trig : Trig float.F) (factor : ℕ) (sample_rate : float.F) (xs : List float.F)
    → 0 < factor
    → factor < usize_mod
    → Returns
        (decimate float (new_decimator float trig factor sample_rate) xs)
        (λ r. Decimates float trig factor sample_rate xs r.0)
unfolding decimate new_decimator
decimate-Decimates float trig factor sample_rate xs pos small =
    let d = new_decimator float trig factor sample_rate in
    let v = new-IsFilter float trig _ sample_rate 51 (omega arith) (omega arith) in
    let (r, run, (out, counter, same, window)) =
      decimate_loop-thinned float d (replicate 51 float.zero) xs [] v (omega arith) small pos in
    (
      r,
      rw (ne→== factor 0 (omega arith)) run,
      record {
        spaced = λ k.
            ap (λ (t : List float.F). get_elem? t k) out
            ∙ thinned_spaced float factor 0 0 k _ pos (inl (refl, refl))
            ∙ ap (get_elem? (filtered float d.filter.coefficients (replicate 51 float.zero) xs))
                {x = 0 + k * factor} {y = k * factor} (omega arith);
      },
    )

-- Without a factor the division for the capacity panics.
pub decimate_zero :
    (float : Float) (trig : Trig float.F) (sample_rate : float.F) (xs : List float.F)
    → decimate float (new_decimator float trig 0 sample_rate) xs ≡ panic
unfolding decimate new_decimator
decimate_zero float trig sample_rate xs = refl
