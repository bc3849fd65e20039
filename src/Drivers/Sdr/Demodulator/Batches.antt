-- ===== src/Drivers/Sdr/Demodulator/Batches.antt =====
-- The demodulators of kernel/src/drivers/sdr/demodulator.rs, batch by batch.
use mathlib.Core.List.{append-nil, append_assoc}
use aetherion_os.Base.{
  ℕ, suc, ◌≡◌, refl, ap, ◌∙◌, sym, false, true, Option, none, some, List, [], ◌∷◌, ◌++◌, Bool-cases,
  inl, inr,
}
use aetherion_os.Base.Int.{ℤ}
use aetherion_os.Ai.Tensor.{Float}
use aetherion_os.Drivers.Sdr.Demodulator.{
  Signal, IqSample, FmDemodulator, AmDemodulator, wrap_down, wrap_up, wrap_phase,
  demodulate_fm_sample, demodulate_fm_loop, demodulate_fm, demodulate_am, two_pi, track, angle_of,
  fm_audio, ◌>>=◌,
}

-- Phases are what `atan2f` gives, and 0; the difference of two phases is at most a turn away from the
-- interval between -π and π.
pub record IsCircle (float : Float) (signal : Signal float.F) : Type 1 where
  pub Phase : float.F → Type 0
  pub zero_phase : Phase float.zero
  pub atan2f_phase : (y x : float.F) → Phase (signal.atan2f y x)
  pub below :
      (a b : float.F)
      → Phase a
      → Phase b
      → signal.lt signal.pi (float.sub (float.sub a b) (two_pi float signal)) ≡ false
  pub above :
      (a b : float.F)
      → Phase a
      → Phase b
      → signal.lt (float.add (float.sub a b) (two_pi float signal)) (signal.neg signal.pi) ≡ false
  pub turned :
      (a b : float.F)
      → Phase a
      → Phase b
      → signal.lt signal.pi (float.sub a b) ≡ true
      → signal.lt (float.sub (float.sub a b) (two_pi float signal)) (signal.neg signal.pi) ≡ false

bind_under :
    {A B C : Type 0} (o : Option A) {f : A → Option C} (g : A → Option B) (h : B → Option C)
    → ((a : A) → f a ≡ (g a >>= h))
    → (o >>= f) ≡ ((o >>= g) >>= h)
bind_under none g h e = refl
bind_under (some a) g h e = e a

module _ (float : Float) (signal : Signal float.F) (circle : IsCircle float signal) where
  -- Two rounds of each loop are enough.
  wrap_phase-some :
      (fuel : ℕ) (a b : float.F)
      → circle.Phase a
      → circle.Phase b
      → (delta : float.F) × (wrap_phase float signal (suc (suc fuel)) (float.sub a b) ≡ some delta)
  unfolding wrap_phase wrap_down wrap_up
  wrap_phase-some fuel a b pa pb = elim (Bool-cases (signal.lt signal.pi (float.sub a b))) [
    | inl high ↦ (
      float.sub (float.sub a b) (two_pi float signal),
      rw (high, circle.below a b pa pb, circle.turned a b pa pb high),
    )
    | inr low ↦ elim (Bool-cases (signal.lt (float.sub a b) (signal.neg signal.pi))) [
      | inl deep ↦
          (float.add (float.sub a b) (two_pi float signal), rw (low, deep, circle.above a b pa pb))
      | inr inside ↦ (float.sub a b, rw (low, inside))
    ]
  ]

  abbrev with_audio : FmDemodulator float.F → List ℤ → FmDemodulator float.F
  with_audio d audio = record d { audio_buffer = audio }

  -- What the loop does with some samples, whatever stands in the buffer.
  record Demodulates (fuel : ℕ) (d : FmDemodulator float.F) (samples : List IqSample) : Type 0 where
    pub out : List ℤ
    pub after : FmDemodulator float.F
    pub phase : circle.Phase after.prev_phase
    pub runs :
        (pre : List ℤ)
        → demodulate_fm_loop float signal fuel (with_audio d pre) samples
          ≡ some (with_audio after (pre ++ out))

  demodulates :
      (fuel : ℕ) (samples : List IqSample) (d : FmDemodulator float.F)
      → circle.Phase d.prev_phase
      → Demodulates (suc (suc fuel)) d samples
  unfolding demodulate_fm_loop demodulate_fm_sample
  demodulates fuel [] d p = record {
    out = [];
    after = d;
    phase = p;
    runs = λ pre. ap (λ (t : List ℤ). some (with_audio d t)) (sym (append-nil pre));
  }
  demodulates fuel (sample ∷ samples) d p =
      let angle = angle_of float signal d sample in
      let turn = circle.atan2f_phase _ _ in
      let (delta, wrapped) = wrap_phase-some fuel angle d.prev_phase turn p in
      let rest = demodulates fuel samples (track float signal d sample angle) turn in
      record {
        out = fm_audio float signal delta ∷ rest.out;
        after = rest.after;
        phase = rest.phase;
        runs = λ pre.
            rw wrapped (rest.runs (pre ++ (fm_audio float signal delta ∷ [])))
            ∙ ap (λ (t : List ℤ). some (with_audio rest.after t))
                (append_assoc pre (fm_audio float signal delta ∷ []) rest.out);
      }

  demodulate_fm_loop-append :
      (fuel : ℕ) (xs ys : List IqSample) (d : FmDemodulator float.F)
      → demodulate_fm_loop float signal fuel d (xs ++ ys) ≡ (
          demodulate_fm_loop float signal fuel d xs >>= λ d'.
          demodulate_fm_loop float signal fuel d' ys)
  unfolding demodulate_fm_loop
  demodulate_fm_loop-append fuel [] ys d = refl
  demodulate_fm_loop-append fuel (x ∷ xs) ys d =
      bind_under (demodulate_fm_sample float signal fuel d x)
        (λ d'. demodulate_fm_loop float signal fuel d' xs)
        (λ d'. demodulate_fm_loop float signal fuel d' ys) (demodulate_fm_loop-append fuel xs ys)

  -- Two batches, and both of them as one.
  pub record Batches (fuel : ℕ) (d : FmDemodulator float.F) (xs ys : List IqSample) : Type 0 where
    pub first : List ℤ × FmDemodulator float.F
    pub second : List ℤ × FmDemodulator float.F
    pub runs_first : demodulate_fm float signal fuel d xs ≡ some first
    pub runs_second : demodulate_fm float signal fuel first.1 ys ≡ some second
    pub runs_both :
        demodulate_fm float signal fuel d (xs ++ ys)
        ≡ some (first.0 ++ second.0, record second.1 { audio_buffer = first.0 ++ second.0 })

  -- Where the difference of two phases is at most one turn away from the interval between -π and
  -- π, and with two rounds or more for each of the two loops, the FM demodulator returns on every
  -- batch; two batches, one after the other, give the audio that both give as one batch, and leave
  -- the demodulator in the same state but for its buffer.
  pub demodulate_fm-Batches :
      (fuel : ℕ) (d : FmDemodulator float.F) (xs ys : List IqSample)
      → circle.Phase d.prev_phase
      → Batches (suc (suc fuel)) d xs ys
  unfolding demodulate_fm
  demodulate_fm-Batches fuel d xs ys p =
      let one = demodulates fuel xs d p in
      let two = demodulates fuel ys one.after one.phase in
      record {
        first = (one.out, with_audio one.after one.out);
        second = (two.out, with_audio two.after two.out);
        runs_first = rw (one.runs []);
        runs_second = rw (two.runs []);
        runs_both = rw (
          demodulate_fm_loop-append (suc (suc fuel)) xs ys (with_audio d []),
          one.runs [],
          two.runs one.out,
        );
      }

  pub demodulate_am-append :
      (xs ys : List IqSample) (d : AmDemodulator float.F)
      → demodulate_am float signal d (xs ++ ys) ≡ (
          let first = demodulate_am float signal d xs in
          let second = demodulate_am float signal first.1 ys in (first.0 ++ second.0, second.1))
  unfolding demodulate_am
  demodulate_am-append [] ys d = refl
  demodulate_am-append (x ∷ xs) ys d = rw (demodulate_am-append xs ys _)
