-- ===== src/Ai/Whisper/Tests.antt =====
-- Transcriptions over whole numbers in place of floats.
use aetherion_os.Base.{ℕ, ◌≡◌, arith, List, [], ◌∷◌, replicate, panic}
use aetherion_os.Base.Int.{ℤ, pos}
use aetherion_os.Ai.Tensor.Whole.{whole}
use aetherion_os.Ai.Whisper.{WhisperModel, tiny, transcribe}
use aetherion_os.Ai.Whisper.Transcribe.{transcribe_short}

abbrev model : WhisperModel ℕ
model = record { config = tiny; encoder_weights = []; decoder_weights = []; vocabulary = [] }

transcribe_short_example : transcribe whole model (pos 1 ∷ pos 2 ∷ []) ≡ panic
transcribe_short_example = transcribe_short whole model (pos 1 ∷ pos 2 ∷ []) (omega arith)

-- Three windows of silence.
abbrev silence : List ℤ
silence = replicate 720 (pos 0)
