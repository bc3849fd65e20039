-- ===== src/Ai/Tensor/Shape.antt =====
-- The invariant of the tensors of kernel/src/ai/tensor.rs.
use aetherion_os.Base.{
  ℕ, zero, suc, ◌*◌, ◌%◌, ◌<◌, ◌≤◌, ◌≡◌, refl, ap, ◌∙◌, arith, List, length, [], ◌∷◌, replicate,
  done, le→leb,
}
use aetherion_os.Base.Word.{usize_mod}
use aetherion_os.Ai.Tensor.{Float, Tensor, product, max_floats, filled, zeros}

-- The number of places of a shape; `product` wraps it.
abbrev pub size : List ℕ → ℕ
size [] = 1
size (d ∷ ds) = d * size ds

-- One value for each place of the shape, in a vector that can be.
pub record IsTensor {F : Type 0} (t : Tensor F) : Type 0 where
  pub count : length t.values ≡ size t.shape
  pub bound : length t.values ≤ max_floats

larger_factor : (d s : ℕ) → suc d * s < usize_mod → s < usize_mod
larger_factor d s h = grind arith

-- What does not wrap is the number of places.
pub product-size : (shape : List ℕ) → size shape < usize_mod → product shape ≡ size shape
product-size [] h = refl
product-size (zero ∷ ds) h = omega arith
product-size (suc d ∷ ds) h =
    ap (λ (t : ℕ). suc d * t % usize_mod) (product-size ds (larger_factor d (size ds) h))
    ∙ omega arith

-- Zeros for a shape that fits.
pub zeros_lem :
    (float : Float) (shape : List ℕ)
    → size shape ≤ max_floats
    → zeros float shape
      ≡ done (record { values = replicate (size shape) float.zero; shape = shape })
unfolding zeros filled
zeros_lem float shape h = rw (product-size shape (omega arith), le→leb (size shape) max_floats h)
