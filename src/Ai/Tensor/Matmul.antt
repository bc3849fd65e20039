-- ===== src/Ai/Tensor/Matmul.antt =====
-- `matmul` of kernel/src/ai/tensor.rs gives the sums of products.
use aetherion_os.Base.{
  ℕ, zero, suc, ◌+◌, ◌*◌, ◌/◌, ◌%◌, ◌<◌, ◌≤◌, ◌≡◌, ◌≢◌, refl, ap, ◌∙◌, sym, arith, ltb, lt→ltb,
  ◌!=◌, eq→==, ne→==, not, true, false, List, [], ◌∷◌, length, length-set, length-replicate, get_or,
  get_or-set_self, get_or-set_ne, at, at_in_range, set, replicate, done, Returns, ℕ_discrete,
}
use mathlib.Core.Path.{ap₂, subst}
use aetherion_os.Base.Fallible.{Result, ok, err}
use aetherion_os.Base.Word.{usize_mod, add_usize, mul_usize}
use aetherion_os.Ai.Tensor.{Float, Tensor, max_floats, dot, columns, rows, matmul_shapes, matmul}
use aetherion_os.Ai.Tensor.Shape.{IsTensor, size, zeros_lem}

cell_below : (x y p q : ℕ) → p < x → q < y → p * y + q < x * y
cell_below x y p q hp hq = grind arith

-- The index of a cell does not wrap.
no_wrap :
    (x y p q : ℕ) → p < x → q < y → x * y < usize_mod → add_usize (mul_usize p y) q ≡ p * y + q
no_wrap x y p q hp hq h = let lt = cell_below x y p q hp hq in omega arith

cell_of : (n i j : ℕ) → j < n → ((i * n + j) / n ≡ i) × ((i * n + j) % n ≡ j)
cell_of n i j h = grind arith

module _ (float : Float) where
  -- The sum over `p`, from the `p` that the loop has reached, in the loop's order.
  pub sum_products : List float.F → List float.F → ℕ → ℕ → ℕ → ℕ → ℕ → ℕ → float.F → float.F
  sum_products a b k n i j zero p sum = sum
  sum_products a b k n i j (suc left) p sum =
      let x = get_or a (i * k + p) float.zero in
      let y = get_or b (p * n + j) float.zero in
      sum_products a b k n i j left (p + 1) (float.add sum (float.mul x y))

  -- Entry (i, j) of the product of an m × k and a k × n matrix.
  pub entry : List float.F → List float.F → ℕ → ℕ → ℕ → ℕ → float.F
  unfolding sum_products
  entry a b k n i j = sum_products a b k n i j k 0 float.zero

  -- The two matrices, and a product that fits.
  record Factors (a b : List float.F) (m k n : ℕ) : Type 0 where
    pub left : length a ≡ m * k
    pub right : length b ≡ k * n
    pub left_fits : m * k < usize_mod
    pub right_fits : k * n < usize_mod
    pub fits : m * n < usize_mod

  dot-sum :
      (a b : List float.F) (m k n i j left p : ℕ) (sum : float.F)
      → Factors a b m k n
      → i < m
      → j < n
      → p + left ≡ k
      → dot float a b k n i j left p sum ≡ done (sum_products a b k n i j left p sum)
  unfolding dot sum_products
  dot-sum a b m k n i j zero p sum h hi hj e = refl
  dot-sum a b m k n i j (suc left) p sum h hi hj e =
      let hp : p < k = omega arith in
      let x : at a (add_usize (mul_usize i k) p) ≡ done (get_or a (i * k + p) float.zero) =
        ap (at a) (no_wrap m k i p hi hp h.left_fits)
        ∙ at_in_range a (i * k + p) float.zero (omega (arith, h.left, cell_below m k i p hi hp)) in
      let y : at b (add_usize (mul_usize p n) j) ≡ done (get_or b (p * n + j) float.zero) =
        ap (at b) (no_wrap k n p j hp hj h.right_fits)
        ∙ at_in_range b (p * n + j) float.zero (omega (arith, h.right, cell_below k n p j hp hj)) in
      rw (x, y) (dot-sum a b m k n i j left (p + 1) _ h hi hj (omega arith))

  -- The cells before `c` hold their entries.
  record Filled (a b : List float.F) (m k n c : ℕ) (result : List float.F) : Type 0 where
    pub size : length result ≡ m * n
    pub cells : (c' : ℕ) → c' < c → get_or result c' float.zero ≡ entry a b k n (c' / n) (c' % n)

  fill :
      (a b : List float.F) (m k n i j : ℕ) (result : List float.F)
      → i < m
      → j < n
      → Filled a b m k n (i * n + j) result
      → Filled a b m k n (i * n + (j + 1)) (set result (i * n + j) (entry a b k n i j))
  fill a b m k n i j result hi hj f =
      let c = i * n + j in
      let here = cell_of n i j hj in
      record {
        size = length-set result c (entry a b k n i j) ∙ f.size;
        cells = λ c' lt. elim (ℕ_discrete c' c) [
          | yes same ↦
              ap (λ (t : ℕ). get_or (set result c (entry a b k n i j)) t float.zero) same
              ∙ get_or-set_self result c (entry a b k n i j) float.zero
                  (omega (arith, f.size, cell_below m n i j hi hj))
              ∙ ap₂ (entry a b k n) (sym here.0 ∙ ap (λ (t : ℕ). t / n) (sym same))
                  (sym here.1 ∙ ap (λ (t : ℕ). t % n) (sym same))
          | no other ↦
              get_or-set_ne result c c' (entry a b k n i j) float.zero (λ e. other (sym e))
              ∙ f.cells c' (omega arith)
        ];
      }

  columns-Filled :
      (a b : List float.F) (m k n i left j : ℕ) (result : List float.F)
      → Factors a b m k n
      → i < m
      → j + left ≡ n
      → Filled a b m k n (i * n + j) result
      → Returns (columns float a b k n i left j result) (Filled a b m k n (i * n + n))
  unfolding columns entry
  columns-Filled a b m k n i zero j result h hi e f = (
    result,
    refl,
    let same : i * n + j ≡ i * n + n = omega arith in
        subst (λ (t : ℕ). Filled a b m k n t result) same f,
  )
  columns-Filled a b m k n i (suc left) j result h hi e f =
      let hj : j < n = omega arith in
      let index = no_wrap m n i j hi hj h.fits in
      let inside : ltb (add_usize (mul_usize i n) j) (length result) ≡ true =
        lt→ltb _ _ (omega (arith, index, f.size, cell_below m n i j hi hj)) in
      let sum = entry a b k n i j in
      let next = fill a b m k n i j result hi hj f in
      let rest =
        columns-Filled a b m k n i left (j + 1) (set result (i * n + j) sum) h hi (omega arith)
          next in
      let step : columns float a b k n i (suc left) j result
          ≡ columns float a b k n i left (j + 1) (set result (i * n + j) sum) =
        rw (dot-sum a b m k n i j k 0 float.zero h hi hj (omega arith), inside, index) in
      (rest.0, step ∙ rest.1, rest.2)

  rows-Filled :
      (a b : List float.F) (m k n left i : ℕ) (result : List float.F)
      → Factors a b m k n
      → i + left ≡ m
      → Filled a b m k n (i * n) result
      → Returns (rows float a b k n left i result) (Filled a b m k n (m * n))
  unfolding rows
  rows-Filled a b m k n zero i result h e f =
      let same : i ≡ m = omega arith in
      (result, refl, subst (λ (t : ℕ). Filled a b m k n (t * n) result) same f)
  rows-Filled a b m k n (suc left) i result h e f =
      let start : i * n ≡ i * n + 0 = omega arith in
      let next : i * n + n ≡ (i + 1) * n = omega arith in
      let row =
        columns-Filled a b m k n i n 0 result h (omega arith) (omega arith)
          (subst (λ (t : ℕ). Filled a b m k n t result) start f) in
      let rest =
        rows-Filled a b m k n left (i + 1) row.0 h (omega arith)
          (subst (λ (t : ℕ). Filled a b m k n t row.0) next row.2) in
      let step : rows float a b k n (suc left) i result ≡ rows float a b k n left (i + 1) row.0 =
        rw row.1 in
      (rest.0, step ∙ rest.1, rest.2)

-- The product of a tensor with m rows and k columns by one with n columns.
pub record IsProduct (float : Float) (t u : Tensor float.F) (m k n : ℕ) (r : Tensor float.F)
    : Type 0 where
  pub dims : r.shape ≡ m ∷ n ∷ []
  pub well_formed : IsTensor r
  pub entries :
      (i j : ℕ)
      → i < m
      → j < n
      → get_or r.values (i * n + j) float.zero ≡ entry float t.values u.values k n i j

-- What `matmul` returns for shapes of two dimensions each, in a word a product or an error.
abbrev pub Multiplies :
    (float : Float)
    → Tensor float.F
    → Tensor float.F
    → ℕ
    → ℕ
    → ℕ
    → ℕ
    → Result (Tensor float.F)
    → Type 0
Multiplies float t u m k k' n (ok r) = (k ≡ k') × IsProduct float t u m k n r
Multiplies float t u m k k' n (err message) =
    (k ≢ k') × (message ≡ "Incompatible dimensions for matmul")

matmul_fits :
    (float : Float) (t u : Tensor float.F) (m k n : ℕ)
    → t.shape ≡ m ∷ k ∷ []
    → u.shape ≡ k ∷ n ∷ []
    → IsTensor t
    → IsTensor u
    → m * n ≤ max_floats
    → Returns (matmul float t u) (Multiplies float t u m k k n)
unfolding matmul
matmul_fits float t u m k n st su wt wu bp =
    let factors : Factors float t.values u.values m k n = record {
      left = wt.count ∙ ap size st ∙ omega arith;
      right = wu.count ∙ ap size su ∙ omega arith;
      left_fits = omega (arith, wt.count ∙ ap size st);
      right_fits = omega (arith, wu.count ∙ ap size su);
      fits = omega arith;
    } in
    let zeroed = replicate (m * (n * 1)) float.zero in
    let filled =
      rows-Filled float t.values u.values m k n m 0 zeroed factors (omega arith) (record {
        size = length-replicate (m * (n * 1)) float.zero ∙ omega arith;
        cells = λ c lt. absurd (omega arith);
      }) in
    let same : (k != k) ≡ false = ap not (eq→== k k refl) in
    (
      ok (record { values = filled.0; shape = m ∷ n ∷ [] }),
      ap₂ (matmul_shapes float t u) st su
          ∙ rw (same, zeros_lem float (m ∷ n ∷ []) (omega arith), filled.1),
      (
        refl,
        record {
          dims = refl;
          well_formed = record {
            count = filled.2.size ∙ omega arith;
            bound = omega (arith, filled.2.size);
          };
          entries = λ i j hi hj.
              filled.2.cells (i * n + j) (cell_below m n i j hi hj)
              ∙ ap₂ (entry float t.values u.values k n) (cell_of n i j hj).0 (cell_of n i j hj).1;
        },
      ),
    )

-- On two tensors of two dimensions whose values are as many as their shapes say, and whose product
-- is not too large for a vector, matmul does not panic. If the inner dimensions agree, it returns
-- the tensor of both outer dimensions whose entries are the sums of products, taken in the order
-- of the loop; if they differ, it returns an error.
pub matmul-Multiplies :
    (float : Float) (t u : Tensor float.F) (m k k' n : ℕ)
    → t.shape ≡ m ∷ k ∷ []
    → u.shape ≡ k' ∷ n ∷ []
    → IsTensor t
    → IsTensor u
    → m * n ≤ max_floats
    → Returns (matmul float t u) (Multiplies float t u m k k' n)
unfolding matmul
matmul-Multiplies float t u m k k' n st su wt wu bp = elim (ℕ_discrete k k') [
  | yes same ↦
      subst (λ (d : ℕ). Returns (matmul float t u) (Multiplies float t u m k d n)) same
        (matmul_fits float t u m k n st (su ∙ ap (λ (d : ℕ). d ∷ n ∷ []) (sym same)) wt wu bp)
  | no other ↦ (
    err "Incompatible dimensions for matmul",
    ap₂ (matmul_shapes float t u) st su ∙ rw (ap not (ne→== k k' other)),
    (other, refl),
  )
]
