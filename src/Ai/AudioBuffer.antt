-- ===== src/Ai/AudioBuffer.antt =====
-- `AudioBuffer` of kernel/src/ai/whisper.rs.
pub mod Latest
mod Tests
use aetherion_os.Base.{
  ℕ, ◌*◌, ◌/◌, ltb, if◌then◌else◌, List, [], ◌∷◌, ◌++◌, length, Run, done, panic, ◌>>=◌,
}
use aetherion_os.Base.Int.{ℤ}
use aetherion_os.Base.Word.{mul_usize}

pub record AudioBuffer : Type 0 where
  pub buffer : List ℤ
  pub sample_rate : ℕ
  pub capacity : ℕ

pub new : ℕ → ℕ → AudioBuffer
new sample_rate duration_ms = record {
  buffer = [];
  sample_rate = sample_rate;
  capacity = mul_usize sample_rate duration_ms / 1000;
}

-- `remove(0)` panics on an empty vector.
abbrev pub remove_first : List ℤ → Run (List ℤ)
remove_first [] = panic
remove_first (x ∷ xs) = done xs

pub push_one : AudioBuffer → ℤ → Run AudioBuffer
push_one b sample =
    if ltb (length b.buffer) b.capacity
    then done (record b { buffer = b.buffer ++ (sample ∷ []) })
    else (remove_first b.buffer >>= λ rest. done (record b { buffer = rest ++ (sample ∷ []) }))

pub push : AudioBuffer → List ℤ → Run AudioBuffer
push b [] = done b
push b (sample ∷ samples) = do b' ← push_one b sample; push b' samples

pub get_samples : AudioBuffer → List ℤ
get_samples b = b.buffer

pub clear : AudioBuffer → AudioBuffer
clear b = record b { buffer = [] }
