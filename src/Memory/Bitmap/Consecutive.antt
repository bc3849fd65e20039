-- ===== src/Memory/Bitmap/Consecutive.antt =====
-- `find_consecutive_clear` (kernel/src/memory/bitmap.rs): one pass finds the first run of `count`
-- free frames.
use aetherion_os.Base.{
  ℕ, zero, suc, ◌+◌, ◌-◌, ◌≤◌, ◌<◌, ◌≡◌, refl, true, false, Option, none, some, Returns, ◌==◌,
  if◌then◌else◌, arith, dec_lt, dec_le, Bool-cases, inl, inr, ==→eq, ne→==,
}
use aetherion_os.Memory.Bitmap.{Bitmap, scan_run, find_consecutive_clear}
use aetherion_os.Memory.Bitmap.View.{IsValid, bit, is_set-bit}

-- The frames from `s` to `s + n` are free.
abbrev pub FreeFrom : Bitmap → ℕ → ℕ → Type 0
FreeFrom b s n = (j : ℕ) → s ≤ j → j < s + n → bit b j ≡ false

-- No run of `count` free frames ends at `e` or before.
abbrev pub NoRunBy : Bitmap → ℕ → ℕ → Type 0
NoRunBy b count e = (t : ℕ) → t + count ≤ e → ¬ (FreeFrom b t count)

-- The first run of `count` free frames among the `size` ones, or none if there is no such run.
abbrev pub IsFirstRun : Bitmap → ℕ → Option ℕ → Type 0
IsFirstRun b count none = NoRunBy b count b.size
IsFirstRun b count (some s) =
    (s + count ≤ b.size) × FreeFrom b s count × ((t : ℕ) → t < s → ¬ (FreeFrom b t count))

-- The loop's state at index `idx`: a run of `n < count` free frames from `s` ends there, and the
-- frame before it is taken.
record Running (b : Bitmap) (count idx n s : ℕ) : Type 0 where
  short : n < count
  start : 0 < n → s + n ≡ idx
  fits : n ≤ idx
  free : FreeFrom b (idx - n) n
  edge : n < idx → bit b (idx - n - 1) ≡ true
  none_yet : NoRunBy b count idx

module _ (b : Bitmap) (count : ℕ) where
  -- A free frame makes the run longer.
  longer-free :
      (idx n s : ℕ) → Running b count idx n s → bit b idx ≡ false → FreeFrom b (idx - n) (n + 1)
  longer-free idx n s r e j lo hi = elim (dec_lt j idx) [
    | yes p ↦ r.free j lo (omega (arith, r.fits))
    | no p ↦ let q : j ≡ idx = omega (arith, r.fits) in rw q e
  ]

  -- A run that ends at `idx + 1` and starts before the loop's run holds the taken frame before it.
  no_earlier :
      (idx n s t : ℕ)
      → Running b count idx n s
      → t + count ≤ idx + 1
      → t < idx - n
      → ¬ (FreeFrom b t count)
  no_earlier idx n s t r h lt free = elim (dec_le (t + count) idx) [
    | yes p ↦ r.none_yet t p free
    | no p ↦
        let taken = r.edge (omega arith) in
        let open_ = free (idx - n - 1) (omega arith) (omega (arith, r.short)) in cc
  ]

  Running-longer :
      (idx n s s' : ℕ)
      → Running b count idx n s
      → bit b idx ≡ false
      → n + 1 < count
      → s' + n ≡ idx
      → Running b count (idx + 1) (n + 1) s'
  Running-longer idx n s s' r e h hs =
      let q : idx + 1 - (n + 1) ≡ idx - n = omega arith in
      record {
        short = h;
        start = λ _. omega arith;
        fits = omega (arith, r.fits);
        free = rw q (longer-free idx n s r e);
        edge = λ p. rw q (r.edge (omega arith));
        none_yet = λ t ht free. no_earlier idx n s t r ht (omega arith) free;
      }

  Running-broken :
      (idx n s : ℕ) → Running b count idx n s → bit b idx ≡ true → Running b count (idx + 1) 0 s
  Running-broken idx n s r e =
      let q : idx + 1 - 0 - 1 ≡ idx = omega arith in
      record {
        short = omega (arith, r.short);
        start = λ p. absurd (omega arith);
        fits = omega arith;
        free = λ j lo hi. absurd (omega arith);
        edge = λ _. rw q e;
        none_yet = λ t ht free. elim (dec_le (t + count) idx) [
          | yes p ↦ r.none_yet t p free
          | no p ↦ let open_ = free idx (omega (arith, r.short)) (omega arith) in cc
        ];
      }

  -- The start that the loop has after a free frame.
  start' : ℕ → ℕ → ℕ → ℕ
  start' idx n s = if n == 0 then idx else s

  start'-add : (idx n s : ℕ) → Running b count idx n s → start' idx n s + n ≡ idx
  unfolding start'
  start'-add idx n s r = ground (arith, r.start)

  IsFirstRun-found :
      (idx n s s' : ℕ)
      → Running b count idx n s
      → bit b idx ≡ false
      → n + 1 ≡ count
      → s' + n ≡ idx
      → idx < b.size
      → IsFirstRun b count (some s')
  IsFirstRun-found idx n s s' r e h hs hi =
      let q : idx - n ≡ s' = omega arith in
      (
        omega arith,
        λ j lo hj. longer-free idx n s r e j (omega arith) (omega arith),
        λ t lt free. no_earlier idx n s t r (omega arith) (omega arith) free,
      )

  scan_run-IsFirstRun :
      (left idx n s : ℕ)
      → IsValid b
      → idx + left ≡ b.size
      → Running b count idx n s
      → Returns (scan_run b count left idx n s) (IsFirstRun b count)
  unfolding scan_run start'
  scan_run-IsFirstRun zero idx n s v e r = (none, refl, λ t h free. r.none_yet t (omega arith) free)
  scan_run-IsFirstRun (suc left) idx n s v e r =
      rw (is_set-bit idx v) (elim (Bool-cases (bit b idx)) [
        | inl taken ↦ rw taken (
            scan_run-IsFirstRun left (idx + 1) 0 s v (omega arith) (Running-broken idx n s r taken))
        | inr free ↦
            let st = start'-add idx n s r in
            elim (Bool-cases (n + 1 == count)) [
              | inl last ↦
                  rw (free, last)
                    (
                      some (start' idx n s),
                      refl,
                      IsFirstRun-found idx n s (start' idx n s) r free (==→eq _ _ last) st
                          (omega arith),
                    )
              | inr more ↦
                  rw (free, more)
                    (scan_run-IsFirstRun left (idx + 1) (n + 1) (start' idx n s) v (omega arith)
                      (Running-longer idx n s (start' idx n s) r free (ground (arith, r.short)) st))
            ]
      ])

-- On a valid bitmap and for a positive count the single pass does not panic and returns the start
-- of the first run of that many free frames, or none exactly when there is no such run.
pub find_consecutive_clear-IsFirstRun :
    {b : Bitmap} (count : ℕ)
    → IsValid b
    → 0 < count
    → Returns (find_consecutive_clear b count) (IsFirstRun b count)
unfolding find_consecutive_clear
find_consecutive_clear-IsFirstRun {b} count v h = rw (ne→== count 0 (omega arith)) (
    scan_run-IsFirstRun b count b.size 0 0 0 v (omega arith) (record {
      short = h;
      start = λ p. absurd (omega arith);
      fits = omega arith;
      free = λ j lo hi. absurd (omega arith);
      edge = λ p. absurd (omega arith);
      none_yet = λ t ht free. absurd (omega arith);
    }))
