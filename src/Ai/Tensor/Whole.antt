-- ===== src/Ai/Tensor/Whole.antt =====
-- Whole numbers in place of floats, to run the code of kernel/src/ai and kernel/src/drivers/sdr on.
use aetherion_os.Base.{ℕ, ◌+◌, ◌-◌, ◌*◌, ◌/◌, ◌^◌, max}
use aetherion_os.Ai.Tensor.{Float}

abbrev pub whole : Float
whole = record {
  F = ℕ;
  zero = 0;
  one = 1;
  decimal = λ m d. m / 10 ^ d;
  neg_infinity = 0;
  add = λ x y. x + y;
  sub = λ x y. x - y;
  mul = λ x y. x * y;
  div = λ x y. x / y;
  max = λ x y. max x y;
  powi = λ x n. x ^ n;
  of_usize = λ n. n;
  expf = λ x. x + 1;
  sqrtf = λ x. x;
}
