-- ===== src/Ai/Inference/Tests.antt =====
-- A layer over whole numbers in place of floats.
use aetherion_os.Base.{ℕ, ◌≡◌, refl, [], ◌∷◌, done, panic}
use aetherion_os.Ai.Tensor.{Tensor}
use aetherion_os.Ai.Inference.{TransformerEncoderLayer, new}

abbrev layer : TransformerEncoderLayer
layer = record {
  attention = record { n_heads = 2; d_model = 4; d_head = 2 };
  ffn = record { d_model = 4; d_ff = 8 };
}

abbrev input : Tensor ℕ
input = record { values = 1 ∷ 2 ∷ 3 ∷ 4 ∷ []; shape = 2 ∷ 2 ∷ [] }

made : new 4 2 8 ≡ done layer
unfolding new
made = refl

no_heads : new 4 0 8 ≡ panic
unfolding new
no_heads = refl
