-- ===== src/Ai/Tensor/Tests.antt =====
-- The tensors over whole numbers in place of floats.
use aetherion_os.Base.{ℕ, ◌≡◌, refl, arith, [], ◌∷◌, done, Returns, at}
use aetherion_os.Base.Fallible.{ok}
use aetherion_os.Ai.Tensor.{
  Tensor, matmul, matmul_shapes, rows, columns, dot, zeros, filled, softmax, softmax_group,
  layer_norm, norm_group, last,
}
use aetherion_os.Ai.Tensor.Whole.{whole}
use aetherion_os.Ai.Tensor.Shape.{IsTensor}
use aetherion_os.Ai.Tensor.Matmul.{Multiplies, matmul-Multiplies}
use aetherion_os.Ai.Tensor.Groups.{ByGroups, softmax-layer_norm-ByGroups}

abbrev a : Tensor ℕ
a = record { values = 1 ∷ 2 ∷ 3 ∷ 4 ∷ 5 ∷ 6 ∷ []; shape = 2 ∷ 3 ∷ [] }

abbrev b : Tensor ℕ
b = record { values = 1 ∷ 0 ∷ 0 ∷ 1 ∷ 2 ∷ 2 ∷ []; shape = 3 ∷ 2 ∷ [] }

a-IsTensor : IsTensor a
a-IsTensor = record { count = refl; bound = omega arith }

b-IsTensor : IsTensor b
b-IsTensor = record { count = refl; bound = omega arith }

matmul-Multiplies_example : Returns (matmul whole a b) (Multiplies whole a b 2 3 3 2)
matmul-Multiplies_example =
    matmul-Multiplies whole a b 2 3 3 2 refl refl a-IsTensor b-IsTensor (omega arith)

product_runs :
    matmul whole a b ≡ done (ok (record { values = 7 ∷ 8 ∷ 16 ∷ 17 ∷ []; shape = 2 ∷ 2 ∷ [] }))
unfolding matmul matmul_shapes rows columns dot zeros filled at
product_runs = refl

softmax-layer_norm-ByGroups_example :
    ByGroups (λ d. softmax_group whole) a (softmax whole a) (last a.shape)
    × ByGroups (norm_group whole 1) a (layer_norm whole 1 a) (last a.shape)
softmax-layer_norm-ByGroups_example = softmax-layer_norm-ByGroups whole 1 a a-IsTensor
