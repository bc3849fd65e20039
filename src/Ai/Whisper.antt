-- ===== src/Ai/Whisper.antt =====
-- `WhisperModel` of kernel/src/ai/whisper.rs and the result of kernel/src/ai/mod.rs. `serial_print!`
-- of that file prints nothing.
pub mod Transcribe
mod Tests
use Prim.Native.String.{String}
use aetherion_os.Base.{
  ℕ, zero, suc, ◌+◌, ◌-◌, ◌/◌, ltb, leb, ◌||◌, Bool, true, false, if◌then◌else◌, List, [], ◌∷◌,
  ◌++◌, length, Run, done, panic, ◌>>=◌, at,
}
use aetherion_os.Base.Fallible.{Result, ok}
use aetherion_os.Base.Int.{ℤ}
use aetherion_os.Base.Word.{add_usize, sub_usize}
use aetherion_os.Ai.Tensor.{Float, Tensor, zeros}

pub record WhisperConfig : Type 0 where
  pub n_vocab : ℕ
  pub n_audio_ctx : ℕ
  pub n_audio_state : ℕ
  pub n_audio_head : ℕ
  pub n_audio_layer : ℕ
  pub n_text_ctx : ℕ
  pub n_text_state : ℕ
  pub n_text_head : ℕ
  pub n_text_layer : ℕ

unfoldable pub tiny : WhisperConfig
tiny = record {
  n_vocab = 51864;
  n_audio_ctx = 1500;
  n_audio_state = 384;
  n_audio_head = 6;
  n_audio_layer = 4;
  n_text_ctx = 448;
  n_text_state = 384;
  n_text_head = 6;
  n_text_layer = 4;
}

unfoldable pub base : WhisperConfig
base = record {
  n_vocab = 51864;
  n_audio_ctx = 1500;
  n_audio_state = 512;
  n_audio_head = 8;
  n_audio_layer = 6;
  n_text_ctx = 448;
  n_text_state = 512;
  n_text_head = 8;
  n_text_layer = 6;
}

pub record WhisperModel (F : Type 0) : Type 0 where
  pub config : WhisperConfig
  pub encoder_weights : List F
  pub decoder_weights : List F
  pub vocabulary : List String

pub record InferenceResult (F : Type 0) : Type 0 where
  pub text : String
  pub confidence : F
  pub processing_time_ms : ℕ

pub new : {F : Type 0} → WhisperConfig → WhisperModel F
new config = record { config = config; encoder_weights = []; decoder_weights = []; vocabulary = [] }

pub load_weights : {F : Type 0} → WhisperModel F → List ℕ → Result (Unit {0}) × WhisperModel F
load_weights model bytes = (ok tt, model)

pub get_timestamp_ms : ℕ
get_timestamp_ms = 0

-- The loop over `i`, with the rounds left.
pub decode_loop : ℕ → ℕ → List ℕ → List ℕ
decode_loop zero i tokens = tokens
decode_loop (suc left) i tokens = elim (ltb 10 i) [
  | true ↦ tokens ++ (50257 ∷ [])
  | false ↦ decode_loop left (i + 1) (tokens ++ (add_usize 1000 i ∷ []))
]

pub decode : {F : Type 0} → Tensor F → ℕ → Result (List ℕ)
unfolding decode_loop
decode hidden_states max_tokens = ok (decode_loop max_tokens 0 (50258 ∷ 50259 ∷ 50359 ∷ []))

-- The tokens that are no special ones.
pub text_tokens : List ℕ → List ℕ
text_tokens [] = []
text_tokens (t ∷ ts) = if leb 50364 t || ltb t 50257 then t ∷ text_tokens ts else text_tokens ts

pub tokens_to_text : List ℕ → String
unfolding text_tokens
tokens_to_text tokens =
    let count = length (text_tokens tokens) in
    if leb count 5
    then "Hello"
    else if leb count 10
    then "Hello world"
    else if leb count 15
    then "Hello from Aetherion"
    else "This is a test of speech recognition"

module _ (float : Float) where
  pub preprocess_audio : List ℤ → Run (Result (Tensor float.F))
  preprocess_audio audio = do
    let n_frames = add_usize (sub_usize (length audio) 400 / 160) 1
    mel_spectrogram ← zeros float (80 ∷ n_frames ∷ [])
    done (ok mel_spectrogram)

  pub encode : WhisperModel float.F → Tensor float.F → Run (Result (Tensor float.F))
  encode model mel_spectrogram = do
    frames ← at mel_spectrogram.shape 1
    hidden_states ← zeros float (model.config.n_audio_state ∷ frames ∷ [])
    done (ok hidden_states)

  -- `m?` in code that may panic too.
  abbrev pub and_then : {A B : Type 0} → Run (Result A) → (A → Run (Result B)) → Run (Result B)
  and_then panic f = panic
  and_then (done (Result.err message)) f = done (Result.err message)
  and_then (done (ok a)) f = f a

  pub transcribe :
      WhisperModel float.F → List ℤ → Run (Result (InferenceResult float.F) × WhisperModel float.F)
  transcribe model audio =
      let start_time = get_timestamp_ms in
      and_then (preprocess_audio audio) (λ mel_spec.
        and_then (encode model mel_spec) (λ hidden_states.
          and_then (done (decode hidden_states 50)) (λ tokens. done (
            ok (record {
              text = tokens_to_text tokens;
              confidence = float.decimal 95 2;
              processing_time_ms = get_timestamp_ms - start_time;
            })))))
      >>= λ r. done (r, model)

pub record MelFilterbank (F : Type 0) : Type 0 where
  pub filters : List (List F)
  pub n_fft : ℕ
  pub n_mels : ℕ

module _ {F : Type 0} where
  pub new_filterbank : ℕ → ℕ → ℕ → MelFilterbank F
  new_filterbank n_fft n_mels sample_rate = record { filters = []; n_fft = n_fft; n_mels = n_mels }

  pub apply : MelFilterbank F → List F → List F
  apply bank spectrogram = []
