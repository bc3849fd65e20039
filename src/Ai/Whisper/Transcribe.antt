-- ===== src/Ai/Whisper/Transcribe.antt =====
-- What `transcribe` of kernel/src/ai/whisper.rs returns.
use aetherion_os.Base.{
  ℕ, ◌+◌, ◌-◌, ◌*◌, ◌/◌, ◌<◌, ◌≤◌, ◌≡◌, arith, lt→leb, List, [], ◌∷◌, length, done, panic, at,
}
use aetherion_os.Base.Fallible.{ok}
use aetherion_os.Base.Int.{ℤ}
use aetherion_os.Base.Word.{usize_mod, add_usize, sub_usize}
use aetherion_os.Ai.Tensor.{Float, zeros, filled, product, max_floats}
use aetherion_os.Ai.Tensor.Shape.{size, zeros_lem}
use aetherion_os.Ai.Whisper.{
  WhisperModel, preprocess_audio, encode, decode, decode_loop, tokens_to_text, text_tokens,
  transcribe, get_timestamp_ms,
}

-- For fewer than 400 samples transcribe panics: the number of frames wraps.
pub transcribe_short :
    (float : Float) (model : WhisperModel float.F) (audio : List ℤ)
    → length audio < 400
    → transcribe float model audio ≡ panic
unfolding transcribe preprocess_audio zeros filled
transcribe_short float model audio h =
    let frames = add_usize (sub_usize (length audio) 400 / 160) 1 in
    let large : max_floats < product (80 ∷ frames ∷ []) = omega arith in
    rw (lt→leb (product (80 ∷ frames ∷ [])) max_floats large)

places : (s n : ℕ) → s * n ≤ max_floats → size (s ∷ n ∷ []) ≤ max_floats
places s n h = let e : n * 1 ≡ n = omega arith in rw e h

-- The text for audio that fills at least one window and whose tensors fit.
pub transcribe_text :
    (float : Float) (model : WhisperModel float.F) (audio : List ℤ)
    → 400 ≤ length audio
    → length audio < usize_mod
    → 80 * ((length audio - 400) / 160 + 1) ≤ max_floats
    → model.config.n_audio_state * ((length audio - 400) / 160 + 1) ≤ max_floats
    → transcribe float model audio
      ≡ done (
        ok (record {
          text = "Hello from Aetherion";
          confidence = float.decimal 95 2;
          processing_time_ms = 0;
        }),
        model,
      )
unfolding transcribe preprocess_audio encode decode decode_loop text_tokens tokens_to_text
    get_timestamp_ms at
transcribe_text float model audio h hw hm hs =
    let frames : add_usize (sub_usize (length audio) 400 / 160) 1 ≡ (length audio - 400) / 160 + 1 =
      omega arith in
    let n = (length audio - 400) / 160 + 1 in
    rw (
      frames,
      zeros_lem float (80 ∷ n ∷ []) (places 80 n hm),
      zeros_lem float (model.config.n_audio_state ∷ n ∷ [])
          (places model.config.n_audio_state n hs),
    )
