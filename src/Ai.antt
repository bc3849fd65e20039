-- ===== src/Ai.antt =====
-- kernel/src/ai: the tensors and the speech model.
pub mod Tensor
pub mod Whisper
pub mod AudioBuffer
pub mod Inference
