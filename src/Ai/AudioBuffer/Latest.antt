-- ===== src/Ai/AudioBuffer/Latest.antt =====
-- The buffer of kernel/src/ai/whisper.rs keeps the latest samples.
use mathlib.Core.List.{append-nil, append_assoc}
use mathlib.Core.Path.{ap₂}
use aetherion_os.Base.{
  ℕ, ◌<◌, ◌≤◌, ◌≡◌, refl, ap, ◌∙◌, sym, arith, ltb, lt→ltb, le→ltb, dec_lt, false, if◌then◌else◌,
  List, [], ◌∷◌, ◌++◌, length, length-append, done, panic, Returns,
}
use aetherion_os.Base.Int.{ℤ}
use aetherion_os.Ai.AudioBuffer.{AudioBuffer, push_one, push, remove_first, get_samples}

-- The last `n` elements, or all if there are fewer.
pub latest : ℕ → List ℤ → List ℤ
latest n [] = []
latest n (x ∷ xs) = if ltb n (length (x ∷ xs)) then latest n xs else x ∷ xs

latest_all : (n : ℕ) (xs : List ℤ) → length xs ≤ n → latest n xs ≡ xs
unfolding latest
latest_all n [] h = refl
latest_all n (x ∷ xs) h = rw (le→ltb n (length (x ∷ xs)) h)

latest_drop : (n : ℕ) (x : ℤ) (xs : List ℤ) → n < length (x ∷ xs) → latest n (x ∷ xs) ≡ latest n xs
unfolding latest
latest_drop n x xs h = rw (lt→ltb n (length (x ∷ xs)) h)

-- A buffer that holds no more than its capacity.
pub record IsBounded (b : AudioBuffer) : Type 0 where
  pub bound : length b.buffer ≤ b.capacity
  pub room : 0 < b.capacity

-- The buffer with the latest samples of all that it was given.
pub record Keeps (b : AudioBuffer) (samples : List ℤ) (b' : AudioBuffer) : Type 0 where
  pub contents : get_samples b' ≡ latest b.capacity (get_samples b ++ samples)
  pub capacity : b'.capacity ≡ b.capacity
  pub rate : b'.sample_rate ≡ b.sample_rate
  pub bounded : IsBounded b'

-- What a single push leaves.
abbrev with_buffer : AudioBuffer → List ℤ → AudioBuffer
with_buffer b xs = record b { buffer = xs }

kept :
    (b : AudioBuffer) (sample : ℤ) (xs : List ℤ)
    → IsBounded b
    → xs ≡ latest b.capacity (b.buffer ++ (sample ∷ []))
    → length xs ≤ b.capacity
    → Keeps b (sample ∷ []) (with_buffer b xs)
unfolding get_samples
kept b sample xs v e h = record {
  contents = e;
  capacity = refl;
  rate = refl;
  bounded = record { bound = h; room = v.room };
}

push_full :
    (b : AudioBuffer) (sample : ℤ) (xs : List ℤ)
    → b.buffer ≡ xs
    → b.capacity ≤ length xs
    → IsBounded b
    → Returns (push_one b sample) (Keeps b (sample ∷ []))
unfolding push_one
push_full b sample [] e h v = absurd (omega (arith, v.room))
push_full b sample (x ∷ xs) e h v =
    let size : length b.buffer ≡ length (x ∷ xs) = ap length e in
    let size' = length-append {0} xs (sample ∷ []) in
    let full : ltb (length b.buffer) b.capacity ≡ false = le→ltb _ _ (omega arith) in
    let rest : remove_first b.buffer ≡ done xs = ap remove_first e in
    (
      with_buffer b (xs ++ (sample ∷ [])),
      rw (full, rest),
      kept b sample (xs ++ (sample ∷ [])) v
          (sym (latest_all b.capacity (xs ++ (sample ∷ [])) (omega (arith, v.bound, size')))
            ∙ sym (latest_drop b.capacity x (xs ++ (sample ∷ [])) (omega (arith, size')))
            ∙ ap (λ (t : List ℤ). latest b.capacity (t ++ (sample ∷ []))) (sym e))
          (omega (arith, v.bound, size')),
    )

push_one-Keeps :
    (b : AudioBuffer) (sample : ℤ)
    → IsBounded b
    → Returns (push_one b sample) (Keeps b (sample ∷ []))
unfolding push_one
push_one-Keeps b sample v = elim (dec_lt (length b.buffer) b.capacity) [
  | yes room ↦
      let size = length-append {0} b.buffer (sample ∷ []) in
      (
        with_buffer b (b.buffer ++ (sample ∷ [])),
        rw (lt→ltb _ _ room),
        kept b sample (b.buffer ++ (sample ∷ [])) v
            (sym (latest_all b.capacity (b.buffer ++ (sample ∷ [])) (omega (arith, size))))
            (omega (arith, size)),
      )
  | no full ↦ push_full b sample b.buffer refl (omega arith) v
]

-- Samples that are dropped at once or later are the same.
latest-latest : (n : ℕ) (xs ys : List ℤ) → latest n (latest n xs ++ ys) ≡ latest n (xs ++ ys)
unfolding latest
latest-latest n [] ys = refl
latest-latest n (x ∷ xs) ys = elim (dec_lt n (length (x ∷ xs))) [
  | yes more ↦ rw (lt→ltb _ _ more) (
      latest-latest n xs ys
      ∙ sym (latest_drop n x (xs ++ ys) (omega (arith, length-append {0} xs ys))))
  | no fits ↦ ap (λ (t : List ℤ). latest n (t ++ ys)) (latest_all n (x ∷ xs) (omega arith))
]

-- On a buffer with a capacity above 0 and no more samples than that, push does not panic;
-- afterwards the buffer holds the latest samples of those it had and those that were pushed, as
-- many as its capacity or all of them if they are fewer, and its capacity and rate are the same.
pub push-Keeps :
    (b : AudioBuffer) (samples : List ℤ) → IsBounded b → Returns (push b samples) (Keeps b samples)
unfolding push get_samples
push-Keeps b [] v = (
  b,
  refl,
  record {
    contents =
        sym (latest_all b.capacity b.buffer v.bound)
        ∙ ap (latest b.capacity) (sym (append-nil b.buffer));
    capacity = refl;
    rate = refl;
    bounded = v;
  },
)
push-Keeps b (sample ∷ samples) v =
    let (b', e, one) = push_one-Keeps b sample v in
    let (b'', e', rest) = push-Keeps b' samples one.bounded in
    let front : get_samples b' ++ samples
        ≡ latest b.capacity (b.buffer ++ (sample ∷ [])) ++ samples =
      ap (λ (t : List ℤ). t ++ samples) one.contents in
    (
      b'',
      rw e e',
      record {
        contents =
            rest.contents
            ∙ ap₂ latest one.capacity front
            ∙ latest-latest b.capacity (b.buffer ++ (sample ∷ [])) samples
            ∙ ap (latest b.capacity) (append_assoc b.buffer (sample ∷ []) samples);
        capacity = rest.capacity ∙ one.capacity;
        rate = rest.rate ∙ one.rate;
        bounded = rest.bounded;
      },
    )

-- Without room the first sample ends in a panic.
pub push_no_room :
    (b : AudioBuffer) (sample : ℤ) (samples : List ℤ)
    → b.capacity ≡ 0
    → get_samples b ≡ []
    → push b (sample ∷ samples) ≡ panic
unfolding push push_one get_samples
push_no_room b sample samples full empty = rw (empty, full)
