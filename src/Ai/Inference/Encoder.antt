-- ===== src/Ai/Inference/Encoder.antt =====
-- An encoder layer of kernel/src/ai/inference.rs keeps the shape of its input.
use aetherion_os.Base.{ℕ, suc, ◌≡◌, refl, ap, ◌∙◌, sym, some, done, ◌>>=◌, Returns}
use mathlib.Core.Path.{subst}
use aetherion_os.Base.Fallible.{Result, ok, err}
use aetherion_os.Ai.Tensor.{Float, Tensor, add, layer_norm, norm_group, last}
use aetherion_os.Ai.Tensor.Shape.{IsTensor}
use aetherion_os.Ai.Tensor.Elementwise.{Zips, add-mul-Zips}
use aetherion_os.Ai.Tensor.Groups.{ByGroups, softmax-layer_norm-ByGroups}
use aetherion_os.Ai.Inference.{TransformerEncoderLayer, add_norm, forward, and_then}

-- A tensor of the shape of the input.
abbrev pub Shaped : {F : Type 0} → Tensor F → Result (Tensor F) → Type 0
Shaped t (ok r) = (r.shape ≡ t.shape) × IsTensor r
Shaped t (err message) = ⊥

module _ (float : Float) where
  norm-Shaped :
      (t : Tensor float.F) (d : ℕ)
      → IsTensor t
      → last t.shape ≡ some (suc d)
      → (r : Tensor float.F) × (layer_norm float (float.decimal 1 5) t ≡ done r)
        × (r.shape ≡ t.shape)
        × IsTensor r
  norm-Shaped t d w e =
      let eps = float.decimal 1 5 in
      let by = (softmax-layer_norm-ByGroups float eps t w).1 in
      let g = subst (ByGroups (norm_group float eps) t (layer_norm float eps t)) e by in
      (g.0, g.1, g.2.shape, g.2.well_formed)

  add-Shaped :
      (t u : Tensor float.F)
      → IsTensor t
      → IsTensor u
      → u.shape ≡ t.shape
      → (r : Tensor float.F) × (add float t u ≡ done (ok r)) × (r.shape ≡ t.shape) × IsTensor r
  add-Shaped t u wt wu e = from (add-mul-Zips float t u wt wu).0
    where
      from :
          Returns (add float t u) (Zips float.zero float.add t u)
          → (r : Tensor float.F) × (add float t u ≡ done (ok r)) × (r.shape ≡ t.shape) × IsTensor r
      from (ok r, run, zips) = (r, run, zips.1, zips.2)
      from (err message, run, differ) = absurd (differ (sym e))

  add_norm-Shaped :
      (t u : Tensor float.F) (d : ℕ)
      → IsTensor t
      → IsTensor u
      → u.shape ≡ t.shape
      → last t.shape ≡ some (suc d)
      → (r : Tensor float.F) × (add_norm float t u ≡ done (ok r)) × (r.shape ≡ t.shape) × IsTensor r
  unfolding add_norm
  add_norm-Shaped t u d wt wu e l =
      let (s, run, shape, w) = add-Shaped t u wt wu e in
      let (r, run', shape', w') = norm-Shaped s d w (ap last shape ∙ l) in
      (
        r,
        ap (λ m. and_then m (λ x. layer_norm float (float.decimal 1 5) x >>= λ x'. done (ok x')))
              run
            ∙ ap (λ m. m >>= λ x'. done (ok x')) run',
        shape' ∙ shape,
        w',
      )

  -- A layer gives a tensor of the shape of its input, if that has a last dimension other than 0.
  pub forward-Shaped :
      (layer : TransformerEncoderLayer) (t : Tensor float.F) (d : ℕ)
      → IsTensor t
      → last t.shape ≡ some (suc d)
      → Returns (forward float layer t) (Shaped t)
  unfolding forward
  forward-Shaped layer t d w l =
      let (x, run, shape, wx) = add_norm-Shaped t t d w w refl l in
      let (y, run', shape', wy) = add_norm-Shaped x x d wx wx refl (ap last shape ∙ l) in
      (ok y, ap (λ m. and_then m (λ x. add_norm float x x)) run ∙ run', (shape' ∙ shape, wy))
