-- ===== src/Memory/Bitmap/Counting.antt =====
-- `count_free` and `count_allocated` (kernel/src/memory/bitmap.rs) count the view, and how one
-- write changes the count.
use aetherion_os.Base.{
  ℕ, zero, suc, ◌+◌, ◌-◌, ◌≤◌, ◌<◌, ◌≡◌, refl, ap, ◌∙◌, Bool, true, false, not, done, ◌==◌,
  if◌then◌else◌, arith, Bool-cases, inl, inr, ==→eq, ne→==,
}
use native.Mathlib.Nat.{add-zero}
use native.Mathlib.Numerals.{add-one}
use aetherion_os.Base.Word.{usize_mod, sub_usize}
use aetherion_os.Memory.Bitmap.{Bitmap, count_from, count_free, count_allocated}
use aetherion_os.Memory.Bitmap.View.{IsValid, bit, is_set-bit}

-- How many of the indices below `n` satisfy `f`.
unfoldable pub count : (ℕ → Bool) → ℕ → ℕ
count f zero = 0
count f (suc n) = count f n + (if f n then 1 else 0)

pub count-le : (f : ℕ → Bool) (n : ℕ) → count f n ≤ n
unfolding count
count-le f zero = omega arith
count-le f (suc n) = ground (arith, count-le f n)

pub count-eq_of_same :
    (f g : ℕ → Bool) (n : ℕ) → ((j : ℕ) → j < n → f j ≡ g j) → count f n ≡ count g n
unfolding count
count-eq_of_same f g zero h = refl
count-eq_of_same f g (suc n) h =
    let rest = count-eq_of_same f g n (λ j hj. h j (omega arith)) in
    rw (rest, h n (omega arith)) refl

abbrev pub number : Bool → ℕ
number v = if v then 1 else 0

-- `g` is `f` but for its value `v` at `i`.
abbrev pub WrittenAt : (f g : ℕ → Bool) (i : ℕ) (v : Bool) → Type 0
WrittenAt f g i v = (j : ℕ) → g j ≡ (if i == j then v else f j)

pub count-write :
    (f g : ℕ → Bool) (i n : ℕ) (v : Bool)
    → WrittenAt f g i v
    → i < n
    → count g n + number (f i) ≡ count f n + number v
unfolding count
count-write f g i zero v w h = absurd (omega arith)
count-write f g i (suc n) v w h = elim (Bool-cases (i == n)) [
  | inl e ↦
      let q : i ≡ n = ==→eq i n e in
      let rest = count-eq_of_same g f n (λ j hj. w j ∙ rw (ne→== i j (omega arith)) refl) in
      rw (rest, w n, e, q) (omega arith)
  | inr ne ↦ let rest = count-write f g i n v w (ground arith) in rw (w n, ne) (omega (arith, rest))
]

-- The free indices are the others.
pub count-not : (f : ℕ → Bool) (n : ℕ) → count (λ j. not (f j)) n + count f n ≡ n
unfolding count
count-not f zero = refl
count-not f (suc n) = ground (arith, count-not f n)

pub count_all : (f : ℕ → Bool) (n : ℕ) → ((j : ℕ) → j < n → f j ≡ true) → count f n ≡ n
unfolding count
count_all f zero h = refl
count_all f (suc n) h =
    rw (h n (omega arith)) (omega (arith, count_all f n (λ j hj. h j (omega arith))))

pub count_none : (f : ℕ → Bool) (n : ℕ) → ((j : ℕ) → j < n → f j ≡ false) → count f n ≡ 0
unfolding count
count_none f zero h = refl
count_none f (suc n) h =
    rw (h n (omega arith)) (omega (arith, count_none f n (λ j hj. h j (omega arith))))

pub count-lt : (f : ℕ → Bool) (i n : ℕ) → i < n → f i ≡ false → count f n < n
unfolding count
count-lt f i zero h e = absurd (omega arith)
count-lt f i (suc n) h e = elim (Bool-cases (i == n)) [
  | inl q ↦ rw (← ==→eq i n q, e) (omega (arith, count-le f i))
  | inr q ↦ ground (arith, count-lt f i n, count-le f n)
]

-- The number of frames that the view marks as allocated.
abbrev pub allocated : Bitmap → ℕ
allocated b = count (bit b) b.size

tally : (f : ℕ → Bool) → ℕ → ℕ → ℕ
tally f zero idx = 0
tally f (suc left) idx = (if not (f idx) then 1 else 0) + tally f left (idx + 1)

tally-count :
    (f : ℕ → Bool) (left idx : ℕ)
    → count (λ j. not (f j)) idx + tally f left idx ≡ count (λ j. not (f j)) (idx + left)
unfolding tally
tally-count f zero idx = simp add-zero
tally-count f (suc left) idx =
    let step : count (λ j. not (f j)) (idx + 1)
        ≡ count (λ j. not (f j)) idx + (if not (f idx) then 1 else 0) =
      unfold count in rw (add-one) refl in
    let e : idx + 1 + left ≡ idx + suc left = omega arith in
    rw (← e, ← tally-count f left (idx + 1), step) (omega arith)

count_from-tally :
    {b : Bitmap} (left idx acc : ℕ)
    → IsValid b
    → count_from b left idx acc ≡ done (acc + tally (bit b) left idx)
unfolding count_from tally
count_from-tally zero idx acc v = simp add-zero
count_from-tally {b} (suc left) idx acc v = rw (is_set-bit idx v) (elim (Bool-cases (bit b idx)) [
  | inl taken ↦
      rw (taken, count_from-tally left (idx + 1) acc v)
        (let e : acc + tally (bit b) left (idx + 1) ≡ acc + (0 + tally (bit b) left (idx + 1)) =
            omega arith in
          ap done e)
  | inr free ↦
      rw (free, count_from-tally left (idx + 1) (acc + 1) v)
        (let e : acc + 1 + tally (bit b) left (idx + 1) ≡ acc + (1 + tally (bit b) left (idx + 1)) =
            omega arith in
          ap done e)
])

-- On a valid bitmap whose size fits a usize, count_free and count_allocated do not panic, and
-- return the numbers of free and of taken frames.
pub counts :
    {b : Bitmap}
    → IsValid b
    → b.size < usize_mod
    → (count_free b ≡ done (b.size - allocated b)) × (count_allocated b ≡ done (allocated b))
unfolding count_free count_allocated count
counts {b} v h =
    let free = tally-count (bit b) b.size 0 in
    let total : 0 + b.size ≡ b.size = omega arith in
    let run : 0 + tally (bit b) b.size 0 ≡ b.size - allocated b =
      omega (arith, rw total at free, count-not (bit b) b.size) in
    let rest : sub_usize b.size (b.size - allocated b) ≡ allocated b =
      omega (arith, count-le (bit b) b.size) in
    rw (count_from-tally b.size 0 0 v, run) (refl, ap done rest)
