-- ===== src/Base/Fallible.antt =====
-- `Result<A, &'static str>`
use Prim.Native.String.{String}

pub data Result {ℓ} (A : Type ℓ) : Type ℓ where
  ok : A → Result A
  err : String → Result A
