-- ===== src/Drivers/Sdr/Filter/Window.antt =====
-- The ring of the filter of kernel/src/drivers/sdr/demodulator.rs is the window of the last samples.
use aetherion_os.Base.{
  ℕ, zero, suc, ◌+◌, ◌-◌, ◌%◌, ◌^◌, ◌<◌, ◌≤◌, ◌≡◌, ◌≢◌, ◌⊎◌, inl, inr, refl, ap, ◌∙◌, sym, arith,
  ltb, lt→ltb, ne→==, ◌==◌, false, true, List, [], ◌∷◌, ◌++◌, length, length-append, length-set,
  get_or, get_or-set_self, get_or-set_ne, set, done, at, at_in_range, dec_lt,
}
use mathlib.Core.Path.{ap₂}
use native.Mathlib.Nat.{mod-eq_of_lt, mod-lt}
use aetherion_os.Base.Word.{add_usize}
use aetherion_os.Ai.Tensor.{Float}
use aetherion_os.Drivers.Sdr.Filter.{LowPassFilter, rem, convolve, filter}

-- A remainder of a number below twice the divisor.
wrap : (n x : ℕ) → x < n + n → ((x < n) × (x % n ≡ x)) ⊎ ((n ≤ x) × (x % n ≡ x - n))
wrap n x h = elim (dec_lt x n) [
  | yes below ↦ inl (below, mod-eq_of_lt below)
  | no above ↦ inr (omega arith, grind arith)
]

-- Where the sample `i` of the window lies after a step of the index.
rotate :
    (n index i : ℕ)
    → index < n
    → i < n
    → ((i + 1 < n)
        × (((index + 1) % n + i) % n ≡ (index + (i + 1)) % n)
        × (((index + 1) % n + i) % n ≢ index))
      ⊎ ((i + 1 ≡ n) × (((index + 1) % n + i) % n ≡ index))
rotate n index i h lt = elim (dec_lt (i + 1) n) [
  | yes before ↦ inl (
    before,
    ground (arith, wrap n (index + 1), wrap n ((index + 1) % n + i), wrap n (index + (i + 1))),
    λ e. absurd (ground (arith, wrap n (index + 1), wrap n ((index + 1) % n + i))),
  )
  | no final ↦ inr (omega arith, ground (arith, wrap n (index + 1), wrap n ((index + 1) % n + i)))
]

-- The sum of the products of coefficients and samples, in the order of the loop.
pub fir : (float : Float) → List float.F → List float.F → float.F → float.F
fir float [] w output = output
fir float (c ∷ cs) [] output = output
fir float (c ∷ cs) (x ∷ w) output = fir float cs w (float.add output (float.mul c x))

module _ {F : Type 0} where
  get_or-append_front :
      (xs ys : List F) (i : ℕ) (d : F) → i < length xs → get_or (xs ++ ys) i d ≡ get_or xs i d
  get_or-append_front [] ys i d h = absurd (omega arith)
  get_or-append_front (x ∷ xs) ys zero d h = refl
  get_or-append_front (x ∷ xs) ys (suc i) d h = get_or-append_front xs ys i d (omega arith)

  get_or-append_end : (xs : List F) (y d : F) → get_or (xs ++ (y ∷ [])) (length xs) d ≡ y
  get_or-append_end [] y d = refl
  get_or-append_end (x ∷ xs) y d = get_or-append_end xs y d

  -- The ring holds the window, its oldest sample at the index.
  pub record Holds (buffer : List F) (index : ℕ) (d : F) (w : List F) : Type 0 where
    pub size : length buffer ≡ length w
    pub inside : index < length w
    pub small : length w ≤ 2 ^ 32
    pub values : (i : ℕ) → i < length w → get_or buffer ((index + i) % length w) d ≡ get_or w i d

  -- Writing at the index and stepping on drops the oldest sample.
  slide :
      (buffer : List F) (index : ℕ) (d x₀ x : F) (w : List F)
      → Holds buffer index d (x₀ ∷ w)
      → Holds (set buffer index x) ((index + 1) % length (x₀ ∷ w)) d (w ++ (x ∷ []))
  slide buffer index d x₀ x w h =
      let n = length (x₀ ∷ w) in
      let longer : length (w ++ (x ∷ [])) ≡ n = length-append {0} w (x ∷ []) ∙ omega arith in
      record {
        size = length-set buffer index x ∙ h.size ∙ sym longer;
        inside = omega (arith, longer, mod-lt (index + 1) {m = n} (omega arith));
        small = omega (arith, longer, h.small);
        values = λ i lt.
            ap (λ (m : ℕ). get_or (set buffer index x) (((index + 1) % n + i) % m) d) longer
            ∙ elim (rotate n index i h.inside (omega (arith, longer))) [
              | inl (before, at_next, other) ↦
                  get_or-set_ne buffer index _ x d (λ e. other (sym e))
                  ∙ ap (λ (m : ℕ). get_or buffer m d) at_next
                  ∙ h.values (i + 1) before
                  ∙ ap (λ (m : ℕ). get_or (x₀ ∷ w) m d) {y = suc i} (omega arith)
                  ∙ sym (get_or-append_front w (x ∷ []) i d (omega arith))
              | inr (final, here) ↦
                  ap (λ (m : ℕ). get_or (set buffer index x) m d) here
                  ∙ get_or-set_self buffer index x d (omega (arith, h.size, h.inside))
                  ∙ sym (get_or-append_end w x d)
                  ∙ ap (λ (m : ℕ). get_or (w ++ (x ∷ [])) m d) {y = i} (omega arith)
            ];
      }

module _ (float : Float) where
  -- The filter holds the window `w`, one sample for each coefficient.
  pub record IsFilter (f : LowPassFilter float.F) (w : List float.F) : Type 0 where
    pub ring : Holds f.buffer f.index float.zero w
    pub matched : length f.coefficients ≡ length w

  convolve-fir :
      (f : LowPassFilter float.F) (w cs rest : List float.F) (i : ℕ) (output : float.F)
      → Holds f.buffer f.index float.zero w
      → length cs ≡ length rest
      → i + length rest ≡ length w
      → ((j : ℕ) → j < length rest → get_or w (i + j) float.zero ≡ get_or rest j float.zero)
      → convolve float f cs i output ≡ done (fir float cs rest output)
  unfolding convolve fir
  convolve-fir f w [] rest i output h e n same = refl
  convolve-fir f w (c ∷ cs) [] i output h e n same = absurd (omega arith)
  convolve-fir f w (c ∷ cs) (x ∷ rest) i output h e n same =
      let size : length f.buffer ≡ length w = h.size in
      let nonzero : (length f.buffer == 0) ≡ false = ne→== _ _ (omega (arith, h.inside)) in
      let sum : add_usize f.index i ≡ f.index + i = omega (arith, h.inside, h.small) in
      let index : rem (add_usize f.index i) (length f.buffer) ≡ done ((f.index + i) % length w) =
        rw nonzero (ap done (ap₂ ◌%◌ sum size)) in
      let found : get_or f.buffer ((f.index + i) % length w) float.zero ≡ x =
        h.values i (omega arith)
        ∙ ap (λ (m : ℕ). get_or w m float.zero) {y = i + 0} (omega arith)
        ∙ same 0 (omega arith) in
      let sample : at f.buffer ((f.index + i) % length w) ≡ done x =
        at_in_range f.buffer ((f.index + i) % length w) float.zero
          (omega (arith, mod-lt (f.index + i) {m = length w} (omega (arith, h.inside))))
        ∙ ap done found in
      rw (index, sample)
        (convolve-fir f w cs rest (i + 1) _ h (omega arith) (omega arith) (λ j lt.
          ap (λ (m : ℕ). get_or w m float.zero) {y = i + suc j} (omega arith)
          ∙ same (suc j) (omega arith)))

  -- The filter after a sample.
  abbrev pub next : LowPassFilter float.F → ℕ → float.F → LowPassFilter float.F
  next f n x = record f { buffer = set f.buffer f.index x; index = (f.index + 1) % n }

  -- A sample moves the window on by one, and the result is the sum of the products over it.
  pub filter-fir :
      (f : LowPassFilter float.F) (x₀ x : float.F) (w : List float.F)
      → IsFilter f (x₀ ∷ w)
      → (filter float f x
          ≡ done (fir float f.coefficients (w ++ (x ∷ [])) float.zero, next f (length (x₀ ∷ w)) x))
        × IsFilter (next f (length (x₀ ∷ w)) x) (w ++ (x ∷ []))
  unfolding filter
  filter-fir f x₀ x w v =
      let n = length (x₀ ∷ w) in
      let longer : length (w ++ (x ∷ [])) ≡ n = length-append {0} w (x ∷ []) ∙ omega arith in
      let ring = slide f.buffer f.index float.zero x₀ x w v.ring in
      let inside : ltb f.index (length f.buffer) ≡ true =
        lt→ltb _ _ (omega (arith, v.ring.size, v.ring.inside)) in
      let size : length (set f.buffer f.index x) ≡ n =
        length-set f.buffer f.index x ∙ v.ring.size in
      let nonzero : (length (set f.buffer f.index x) == 0) ≡ false =
        ne→== _ _ (omega (arith, size)) in
      let sum : add_usize f.index 1 ≡ f.index + 1 = omega (arith, v.ring.inside, v.ring.small) in
      let index : rem (add_usize f.index 1) (length (set f.buffer f.index x))
          ≡ done ((f.index + 1) % n) =
        rw nonzero (ap done (ap₂ ◌%◌ sum size)) in
      let output =
        convolve-fir (next f n x) (w ++ (x ∷ [])) f.coefficients (w ++ (x ∷ [])) 0 float.zero ring
          (v.matched ∙ sym longer) (omega arith)
          (λ j lt. ap (λ (m : ℕ). get_or (w ++ (x ∷ [])) m float.zero) {y = j} (omega arith)) in
      (rw (inside, index, output), record { ring = ring; matched = v.matched ∙ sym longer })
