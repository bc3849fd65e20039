-- ===== src/Ai/Inference.antt =====
-- kernel/src/ai/inference.rs: the layers of a transformer, where attention and the feed-forward
-- network give their input back.
pub mod Encoder
mod Tests
use aetherion_os.Base.{ℕ, ◌/◌, ◌==◌, if◌then◌else◌, List, [], Run, done, panic, ◌>>=◌}
use aetherion_os.Base.Fallible.{Result, ok, err}
use aetherion_os.Ai.Tensor.{Float, Tensor, add, layer_norm}

pub record MultiHeadAttention : Type 0 where
  pub n_heads : ℕ
  pub d_model : ℕ
  pub d_head : ℕ

-- The division panics without heads.
pub new_attention : ℕ → ℕ → Run MultiHeadAttention
new_attention n_heads d_model =
    if n_heads == 0
    then panic
    else done (record { n_heads = n_heads; d_model = d_model; d_head = d_model / n_heads })

pub attend : {F : Type 0} → MultiHeadAttention → Tensor F → Tensor F → Tensor F → Result (Tensor F)
attend attention query key value = ok query

pub record FeedForward : Type 0 where
  pub d_model : ℕ
  pub d_ff : ℕ

pub new_ffn : ℕ → ℕ → FeedForward
new_ffn d_model d_ff = record { d_model = d_model; d_ff = d_ff }

pub feed : {F : Type 0} → FeedForward → Tensor F → Result (Tensor F)
feed ffn input = ok input

pub record TransformerEncoderLayer : Type 0 where
  pub attention : MultiHeadAttention
  pub ffn : FeedForward

pub new : ℕ → ℕ → ℕ → Run TransformerEncoderLayer
unfolding new_attention new_ffn
new d_model n_heads d_ff = new_attention n_heads d_model >>= λ attention.
    done (record { attention = attention; ffn = new_ffn d_model d_ff })

-- `m?` in code that may panic too.
abbrev pub and_then : {A B : Type 0} → Run (Result A) → (A → Run (Result B)) → Run (Result B)
and_then panic f = panic
and_then (done (err message)) f = done (err message)
and_then (done (ok a)) f = f a

module _ (float : Float) where
  -- `a.add(b)?` and the normalisation of the sum, with the literal 1e-5.
  pub add_norm : Tensor float.F → Tensor float.F → Run (Result (Tensor float.F))
  add_norm a b =
      and_then (add float a b) (λ x. layer_norm float (float.decimal 1 5) x >>= λ x'. done (ok x'))

  pub forward : TransformerEncoderLayer → Tensor float.F → Run (Result (Tensor float.F))
  unfolding add_norm attend feed
  forward layer input = and_then (done (attend layer.attention input input input)) (λ attn_output.
      and_then (add_norm input attn_output)
        (λ x. and_then (done (feed layer.ffn x)) (λ ffn_output. add_norm x ffn_output)))

pub record InferenceContext (F : Type 0) : Type 0 where
  pub cache_size : ℕ
  pub kv_cache : List (Tensor F)

module _ {F : Type 0} where
  pub new_context : ℕ → InferenceContext F
  new_context cache_size = record { cache_size = cache_size; kv_cache = [] }

  pub clear : InferenceContext F → InferenceContext F
  clear context = record context { kv_cache = [] }
