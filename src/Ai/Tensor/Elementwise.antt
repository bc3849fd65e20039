-- ===== src/Ai/Tensor/Elementwise.antt =====
-- `add`, `mul` and `relu` of kernel/src/ai/tensor.rs.
use aetherion_os.Base.{
  ℕ, zero, suc, ◌<◌, ◌≡◌, ◌≢◌, refl, ap, ◌∙◌, sym, arith, ◌==◌, eq→==, ==→eq, and-true, true, false,
  Bool-cases, inl, inr, if◌then◌else◌, List, [], ◌∷◌, length, length-map, get_or, done, ◌>>=◌,
  Returns,
}
use mathlib.Core.Path.{ap₂}
use aetherion_os.Base.Fallible.{Result, ok, err}
use aetherion_os.Ai.Tensor.{
  Float, Tensor, product, from_slice, same_shape, zip_with, add, mul, relu,
}
use aetherion_os.Ai.Tensor.Shape.{IsTensor, size, product-size}

same_shape-eq : (s s' : List ℕ) → same_shape s s' ≡ true → s ≡ s'
same_shape-eq [] [] h = refl
same_shape-eq [] (e ∷ es) h = cc
same_shape-eq (d ∷ ds) [] h = cc
same_shape-eq (d ∷ ds) (e ∷ es) h =
    let both = and-true (d == e) (same_shape ds es) h in
    ap₂ ◌∷◌ (==→eq d e both.0) (same_shape-eq ds es both.1)

same_shape_refl : (s : List ℕ) → same_shape s s ≡ true
same_shape_refl [] = refl
same_shape_refl (d ∷ ds) = rw (eq→== d d refl) (same_shape_refl ds)

module _ {F : Type 0} (f : F → F → F) where
  length-zip_with : (xs ys : List F) → length xs ≡ length ys → length (zip_with f xs ys) ≡ length xs
  length-zip_with [] ys h = refl
  length-zip_with (x ∷ xs) [] h = absurd (omega arith)
  length-zip_with (x ∷ xs) (y ∷ ys) h = ap suc (length-zip_with xs ys (omega arith))

  get_or-zip_with :
      (xs ys : List F) (i : ℕ) (d : F)
      → length xs ≡ length ys
      → i < length xs
      → get_or (zip_with f xs ys) i d ≡ f (get_or xs i d) (get_or ys i d)
  get_or-zip_with [] ys i d h lt = absurd (omega arith)
  get_or-zip_with (x ∷ xs) [] i d h lt = absurd (omega arith)
  get_or-zip_with (x ∷ xs) (y ∷ ys) zero d h lt = refl
  get_or-zip_with (x ∷ xs) (y ∷ ys) (suc i) d h lt =
      get_or-zip_with xs ys i d (omega arith) (omega arith)

-- A tensor of the same shape with `f` at each place, or the error for two shapes.
abbrev pub Zips : {F : Type 0} → F → (F → F → F) → Tensor F → Tensor F → Result (Tensor F) → Type 0
Zips other f t u (ok r) =
    (t.shape ≡ u.shape)
    × (r.shape ≡ t.shape)
    × IsTensor r
    × ((i : ℕ)
        → i < length t.values
        → get_or r.values i other ≡ f (get_or t.values i other) (get_or u.values i other))
Zips other f t u (err message) = t.shape ≢ u.shape

zipped :
    {F : Type 0} (other : F) (f : F → F → F) (t u : Tensor F) (message : _)
    → IsTensor t
    → IsTensor u
    → Returns
        (if same_shape t.shape u.shape
          then (from_slice (zip_with f t.values u.values) t.shape >>= λ r. done (ok r))
          else done (err message))
        (Zips other f t u)
unfolding from_slice
zipped other f t u message wt wu = elim (Bool-cases (same_shape t.shape u.shape)) [
  | inl same ↦
      let e = same_shape-eq t.shape u.shape same in
      let sizes : length t.values ≡ length u.values = wt.count ∙ ap size e ∙ sym wu.count in
      let count = length-zip_with f t.values u.values sizes ∙ wt.count in
      let p : product t.shape ≡ size t.shape =
        product-size t.shape (omega (arith, wt.count, wt.bound)) in
      (
        ok (record { values = zip_with f t.values u.values; shape = t.shape }),
        rw (same, eq→== _ _ (count ∙ sym p)),
        (
          e,
          refl,
          record { count = count; bound = omega (arith, count, wt.count, wt.bound) },
          λ i lt. get_or-zip_with f t.values u.values i other sizes lt,
        ),
      )
  | inr differ ↦ (
    err message,
    rw differ,
    λ e.
        let s = same_shape_refl t.shape in
        let d : same_shape t.shape t.shape ≡ false = ap (same_shape t.shape) e ∙ differ in
        cc (s, d),
  )
]

-- Addition and multiplication of two tensors work at each place if the shapes agree, keep the
-- invariant, and give an error if they differ.
pub add-mul-Zips :
    (float : Float) (t u : Tensor float.F)
    → IsTensor t
    → IsTensor u
    → Returns (add float t u) (Zips float.zero float.add t u)
      × Returns (mul float t u) (Zips float.zero float.mul t u)
unfolding add mul
add-mul-Zips float t u wt wu = (
  zipped float.zero float.add t u "Shape mismatch for addition" wt wu,
  zipped float.zero float.mul t u "Shape mismatch for multiplication" wt wu,
)

pub relu-IsTensor : (float : Float) {t : Tensor float.F} → IsTensor t → IsTensor (relu float t)
unfolding relu
relu-IsTensor float {t} w = record {
  count = length-map (λ x. float.max x float.zero) t.values ∙ w.count;
  bound = omega (arith, length-map (λ x. float.max x float.zero) t.values, w.bound);
}
