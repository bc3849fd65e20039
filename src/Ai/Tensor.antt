-- ===== src/Ai/Tensor.antt =====
-- kernel/src/ai/tensor.rs over the operations of `f32` and of `libm` as a parameter.
pub mod Shape
pub mod Matmul
pub mod Elementwise
pub mod Groups
pub mod Whole
mod Tests
use aetherion_os.Base.{
  ℕ, zero, suc, ◌+◌, ◌-◌, ◌*◌, ◌/◌, ◌^◌, ◌==◌, ◌!=◌, ◌&&◌, ◌||◌, ltb, leb, Bool, true, false,
  if◌then◌else◌, Option, none, some, List, [], ◌∷◌, ◌++◌, map, Run, done, panic, ◌>>=◌, at, length,
  set, replicate,
}
use aetherion_os.Base.Fallible.{Result, ok, err}
use aetherion_os.Base.Word.{add_usize, mul_usize}

-- `decimal m d` is the literal m / 10 ^ d.
pub record Float : Type 1 where
  pub F : Type 0
  pub zero : F
  pub one : F
  pub decimal : ℕ → ℕ → F
  pub neg_infinity : F
  pub add : F → F → F
  pub sub : F → F → F
  pub mul : F → F → F
  pub div : F → F → F
  pub max : F → F → F
  pub powi : F → ℕ → F
  pub of_usize : ℕ → F
  pub expf : F → F
  pub sqrtf : F → F

-- `data` is `values` here.
pub record Tensor (F : Type 0) : Type 0 where
  pub values : List F
  pub shape : List ℕ

-- `shape.iter().product()`
abbrev pub product : List ℕ → ℕ
product [] = 1
product (d ∷ ds) = mul_usize d (product ds)

-- `vec![a; size]` of `f32`s panics where the bytes do not fit an `isize`.
abbrev pub max_floats : ℕ
max_floats = (2 ^ 63 - 1) / 4

unfoldable pub filled : {F : Type 0} → F → List ℕ → Run (Tensor F)
filled a shape =
    if leb (product shape) max_floats
    then done (record { values = replicate (product shape) a; shape = shape })
    else panic

pub from_slice : {F : Type 0} → List F → List ℕ → Run (Tensor F)
from_slice values shape =
    if length values == product shape
    then done (record { values = values; shape = shape })
    else panic

-- `xs[index] = a`
abbrev pub store : {F : Type 0} → List F → ℕ → F → Run (List F)
store xs index a = if ltb index (length xs) then done (set xs index a) else panic

abbrev pub same_shape : List ℕ → List ℕ → Bool
same_shape [] [] = true
same_shape [] (e ∷ es) = false
same_shape (d ∷ ds) [] = false
same_shape (d ∷ ds) (e ∷ es) = d == e && same_shape ds es

-- `xs.iter().zip(ys.iter()).map(f).collect()`
abbrev pub zip_with : {F : Type 0} → (F → F → F) → List F → List F → List F
zip_with f [] ys = []
zip_with f (x ∷ xs) [] = []
zip_with f (x ∷ xs) (y ∷ ys) = f x y ∷ zip_with f xs ys

abbrev pub fold : {F : Type 0} → (F → F → F) → F → List F → F
fold f a [] = a
fold f a (x ∷ xs) = fold f (f a x) xs

abbrev pub last : List ℕ → Option ℕ
last [] = none
last (d ∷ []) = some d
last (d ∷ (e ∷ ds)) = last (e ∷ ds)

abbrev pub take {ℓ} : {A : Type ℓ} → ℕ → List A → List A
take zero xs = []
take (suc n) [] = []
take (suc n) (x ∷ xs) = x ∷ take n xs

abbrev pub drop {ℓ} : {A : Type ℓ} → ℕ → List A → List A
drop zero xs = xs
drop (suc n) [] = []
drop (suc n) (x ∷ xs) = drop n xs

-- What `f` makes of `xs[start..end]`, written back; a range out of bounds panics.
abbrev pub update_slice : {F : Type 0} → (List F → List F) → List F → ℕ → ℕ → Run (List F)
update_slice f xs start end =
    if leb start end && leb end (length xs)
    then done (take start xs ++ (f (take (end - start) (drop start xs)) ++ drop end xs))
    else panic

-- `for i in 0..n_groups`, with the rounds left.
pub update_groups : {F : Type 0} → (List F → List F) → ℕ → ℕ → ℕ → List F → Run (List F)
update_groups f last_dim zero i xs = done xs
update_groups f last_dim (suc left) i xs = do
  let start = mul_usize i last_dim
  xs' ← update_slice f xs start (add_usize start last_dim)
  update_groups f last_dim left (i + 1) xs'

-- The division by the last dimension panics at 0.
pub over_groups : {F : Type 0} → (List F → List F) → Tensor F → ℕ → Run (Tensor F)
unfolding update_groups
over_groups f t last_dim =
    if last_dim == 0
    then panic
    else (update_groups f last_dim (length t.values / last_dim) 0 t.values >>= λ values.
        done (record t { values = values }))

-- `if self.shape.is_empty() { return; }` and the loop over the groups.
abbrev pub by_last_dim : {F : Type 0} → (List F → List F) → Tensor F → Option ℕ → Run (Tensor F)
by_last_dim f t none = done t
by_last_dim f t (some last_dim) = over_groups f t last_dim

module _ (float : Float) where
  unfoldable pub zeros : List ℕ → Run (Tensor float.F)
  unfolding filled
  zeros shape = filled float.zero shape

  pub ones : List ℕ → Run (Tensor float.F)
  unfolding filled
  ones shape = filled float.one shape

  -- The loop over `p`, with the rounds left.
  pub dot : List float.F → List float.F → ℕ → ℕ → ℕ → ℕ → ℕ → ℕ → float.F → Run float.F
  dot a b k n i j zero p sum = done sum
  dot a b k n i j (suc left) p sum = do
    x ← at a (add_usize (mul_usize i k) p)
    y ← at b (add_usize (mul_usize p n) j)
    dot a b k n i j left (p + 1) (float.add sum (float.mul x y))

  -- The loop over `j`.
  pub columns : List float.F → List float.F → ℕ → ℕ → ℕ → ℕ → ℕ → List float.F → Run (List float.F)
  columns a b k n i zero j result = done result
  columns a b k n i (suc left) j result = do
    sum ← dot a b k n i j k 0 float.zero
    result' ← store result (add_usize (mul_usize i n) j) sum
    columns a b k n i left (j + 1) result'

  -- The loop over `i`.
  pub rows : List float.F → List float.F → ℕ → ℕ → ℕ → ℕ → List float.F → Run (List float.F)
  unfolding columns
  rows a b k n zero i result = done result
  rows a b k n (suc left) i result = do
    result' ← columns a b k n i n 0 result
    rows a b k n left (i + 1) result'

  -- `matmul` on the two shapes.
  pub matmul_shapes :
      Tensor float.F → Tensor float.F → List ℕ → List ℕ → Run (Result (Tensor float.F))
  matmul_shapes t u (m ∷ (k ∷ [])) (k' ∷ (n ∷ [])) =
      if k != k' then done (err "Incompatible dimensions for matmul") else (do
        result ← zeros (m ∷ n ∷ [])
        values ← rows t.values u.values k n m 0 result.values
        done (ok (record result { values = values })))
  matmul_shapes t u s s' = done (err "Matmul only supports 2D tensors")

  pub matmul : Tensor float.F → Tensor float.F → Run (Result (Tensor float.F))
  unfolding matmul_shapes
  matmul t u = matmul_shapes t u t.shape u.shape

  pub add : Tensor float.F → Tensor float.F → Run (Result (Tensor float.F))
  add t u =
      if same_shape t.shape u.shape
      then (from_slice (zip_with float.add t.values u.values) t.shape >>= λ r. done (ok r))
      else done (err "Shape mismatch for addition")

  pub mul : Tensor float.F → Tensor float.F → Run (Result (Tensor float.F))
  mul t u =
      if same_shape t.shape u.shape
      then (from_slice (zip_with float.mul t.values u.values) t.shape >>= λ r. done (ok r))
      else done (err "Shape mismatch for multiplication")

  pub relu : Tensor float.F → Tensor float.F
  relu t = record t { values = map (λ x. float.max x float.zero) t.values }

  -- One group of `softmax`.
  pub softmax_group : List float.F → List float.F
  softmax_group slice =
      let max_val = fold float.max float.neg_infinity slice in
      let exps = map (λ x. float.expf (float.sub x max_val)) slice in
      let sum = fold float.add float.zero exps in map (λ x. float.div x sum) exps

  pub softmax : Tensor float.F → Run (Tensor float.F)
  unfolding softmax_group over_groups
  softmax t = by_last_dim softmax_group t (last t.shape)

  -- One group of `layer_norm`.
  pub norm_group : float.F → ℕ → List float.F → List float.F
  norm_group eps last_dim slice =
      let mean = float.div (fold float.add float.zero slice) (float.of_usize last_dim) in
      let squares = map (λ x. float.powi (float.sub x mean) 2) slice in
      let variance = float.div (fold float.add float.zero squares) (float.of_usize last_dim) in
      let std_dev = float.sqrtf (float.add variance eps) in
      map (λ x. float.div (float.sub x mean) std_dev) slice

  abbrev pub norm_by : float.F → Tensor float.F → Option ℕ → Run (Tensor float.F)
  norm_by eps t none = done t
  norm_by eps t (some last_dim) = over_groups (norm_group eps last_dim) t last_dim

  pub layer_norm : float.F → Tensor float.F → Run (Tensor float.F)
  unfolding norm_group over_groups
  layer_norm eps t = norm_by eps t (last t.shape)
