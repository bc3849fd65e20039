-- ===== src/Ai/Tensor/Groups.antt =====
-- `softmax` and `layer_norm` of kernel/src/ai/tensor.rs work on the groups of the last dimension.
use aetherion_os.Base.{
  ℕ, zero, suc, ◌+◌, ◌-◌, ◌*◌, ◌/◌, ◌<◌, ◌≤◌, ◌≡◌, ◌≢◌, refl, ap, ◌∙◌, sym, arith, ne→==, leb,
  le→leb, ◌&&◌, true, Option, none, some, List, [], ◌∷◌, ◌++◌, map, length, length-map,
  length-append, Run, done, panic, Returns,
}
use native.Mathlib.Nat.{div-add-mod'}
use mathlib.Core.Path.{ap₂}
use mathlib.Core.List.{append_assoc}
use aetherion_os.Base.Word.{usize_mod, add_usize, mul_usize}
use aetherion_os.Ai.Tensor.{
  Float, Tensor, last, take, drop, update_slice, update_groups, over_groups, softmax, softmax_group,
  layer_norm, norm_group,
}
use aetherion_os.Ai.Tensor.Shape.{IsTensor}

-- `f` on each of `groups` pieces of `d` values, one after the other.
pub chunked : {F : Type 0} → (List F → List F) → ℕ → ℕ → List F → List F
chunked f d zero xs = xs
chunked f d (suc groups) xs = f (take d xs) ++ chunked f d groups (drop d xs)

module _ {F : Type 0} where
  take-append : (pre rest : List F) → take (length pre) (pre ++ rest) ≡ pre
  take-append [] rest = refl
  take-append (x ∷ pre) rest = ap (λ (t : List F). x ∷ t) (take-append pre rest)

  drop-append : (pre rest : List F) → drop (length pre) (pre ++ rest) ≡ rest
  drop-append [] rest = refl
  drop-append (x ∷ pre) rest = drop-append pre rest

  drop_past : (pre rest : List F) (n : ℕ) → drop (length pre + n) (pre ++ rest) ≡ drop n rest
  drop_past [] rest n = let e : 0 + n ≡ n = omega arith in ap (λ (t : ℕ). drop t rest) e
  drop_past (x ∷ pre) rest n =
      let e : suc (length pre) + n ≡ suc (length pre + n) = omega arith in
      ap (λ (t : ℕ). drop t (x ∷ (pre ++ rest))) e ∙ drop_past pre rest n

  length-take : (n : ℕ) (xs : List F) → n ≤ length xs → length (take n xs) ≡ n
  length-take zero xs h = refl
  length-take (suc n) [] h = absurd (omega arith)
  length-take (suc n) (x ∷ xs) h = ap suc (length-take n xs (omega arith))

  length-drop : (n : ℕ) (xs : List F) → length (drop n xs) ≡ length xs - n
  length-drop zero xs = omega arith
  length-drop (suc n) [] = omega arith
  length-drop (suc n) (x ∷ xs) = length-drop n xs ∙ omega arith

  -- `f` keeps the length of a group.
  abbrev Keeps : (List F → List F) → ℕ → Type 0
  Keeps f d = (xs : List F) → length xs ≡ d → length (f xs) ≡ d

  -- One step of the loop, with the groups before it in `pre`.
  update_slice_at :
      (f : List F → List F) (pre rest : List F) (start end d : ℕ)
      → start ≡ length pre
      → end ≡ length pre + d
      → d ≤ length rest
      → update_slice f (pre ++ rest) start end ≡ done ((pre ++ f (take d rest)) ++ drop d rest)
  update_slice_at f pre rest start end d hs he hd =
      let inside : leb start end && leb end (length (pre ++ rest)) ≡ true =
        ap₂ ◌&&◌ (le→leb start end (omega arith))
          (le→leb end (length (pre ++ rest)) (omega (arith, length-append {0} pre rest))) in
      let width : end - start ≡ d = omega arith in
      let before : take start (pre ++ rest) ≡ pre =
        ap (λ (t : ℕ). take t (pre ++ rest)) hs ∙ take-append pre rest in
      let from : drop start (pre ++ rest) ≡ rest =
        ap (λ (t : ℕ). drop t (pre ++ rest)) hs ∙ drop-append pre rest in
      let after : drop end (pre ++ rest) ≡ drop d rest =
        ap (λ (t : ℕ). drop t (pre ++ rest)) he ∙ drop_past pre rest d in
      rw (inside, before, from, width, after)
        (ap done (sym (append_assoc pre (f (take d rest)) (drop d rest))))

  update_groups-chunked :
      (f : List F → List F) (d left i : ℕ) (pre rest : List F)
      → Keeps f d
      → i * d ≡ length pre
      → left * d ≤ length rest
      → length pre + length rest < usize_mod
      → update_groups f d left i (pre ++ rest) ≡ done (pre ++ chunked f d left rest)
  unfolding update_groups chunked
  update_groups-chunked f d zero i pre rest keeps hi hl hw = refl
  update_groups-chunked f d (suc left) i pre rest keeps hi hl hw =
      let group = f (take d rest) in
      let fits : d ≤ length rest = omega arith in
      let size = keeps (take d rest) (length-take d rest fits) in
      let start : mul_usize i d ≡ length pre = omega arith in
      let end : add_usize (mul_usize i d) d ≡ length pre + d = omega arith in
      let step =
        update_slice_at f pre rest (mul_usize i d) (add_usize (mul_usize i d) d) d start end fits in
      let pre' = pre ++ group in
      let size' = length-append {0} pre group in
      let next = length-drop d rest in
      rw step (
        update_groups-chunked f d left (i + 1) pre' (drop d rest) keeps (omega (arith, size', size))
          (omega (arith, next)) (omega (arith, size', size, next))
        ∙ ap done (append_assoc pre group (chunked f d left (drop d rest))))

  length-chunked :
      (f : List F → List F) (d groups : ℕ) (xs : List F)
      → Keeps f d
      → groups * d ≤ length xs
      → length (chunked f d groups xs) ≡ length xs
  unfolding chunked
  length-chunked f d zero xs keeps h = refl
  length-chunked f d (suc groups) xs keeps h =
      let fits : d ≤ length xs = omega arith in
      omega (
        arith,
        length-append {0} (f (take d xs)) (chunked f d groups (drop d xs)),
        keeps (take d xs) (length-take d xs fits),
        length-chunked f d groups (drop d xs) keeps (omega (arith, length-drop d xs)),
        length-drop d xs,
      )

  -- The tensor with `f` on each group of `d` values.
  pub record Grouped (f : List F → List F) (d : ℕ) (t r : Tensor F) : Type 0 where
    pub values : r.values ≡ chunked f d (length t.values / d) t.values
    pub shape : r.shape ≡ t.shape
    pub well_formed : IsTensor r

  over_groups-Grouped :
      (f : List F → List F) (d : ℕ) (t : Tensor F)
      → Keeps f d
      → d ≢ 0
      → IsTensor t
      → Returns (over_groups f t d) (Grouped f d t)
  unfolding over_groups
  over_groups-Grouped f d t keeps nonzero w =
      let groups = length t.values / d in
      let fits : groups * d ≤ length t.values = omega (arith, div-add-mod' (length t.values) d) in
      let loop =
        update_groups-chunked f d groups 0 [] t.values keeps (omega arith) fits
          (omega (arith, w.bound)) in
      let size = length-chunked f d groups t.values keeps fits in
      (
        record t { values = chunked f d groups t.values },
        rw (ne→== d 0 nonzero, loop),
        record {
          values = refl;
          shape = refl;
          well_formed = record { count = size ∙ w.count; bound = omega (arith, size, w.bound) };
        },
      )

-- What the code returns for a tensor by its last dimension: the tensor itself without dimensions,
-- no result, since it divides by it, where that dimension is 0, and the groups worked on otherwise.
abbrev pub ByGroups :
    {F : Type 0} → (ℕ → List F → List F) → Tensor F → Run (Tensor F) → Option ℕ → Type 0
ByGroups f t r none = r ≡ done t
ByGroups f t r (some zero) = r ≡ panic
ByGroups f t r (some (suc d)) = Returns r (Grouped (f (suc d)) (suc d) t)

softmax_group-Keeps :
    (float : Float) (d : ℕ) (xs : List float.F)
    → length xs ≡ d
    → length (softmax_group float xs) ≡ d
unfolding softmax_group
softmax_group-Keeps float d xs h = length-map _ (map _ xs) ∙ length-map _ xs ∙ h

norm_group-Keeps :
    (float : Float) (eps : float.F) (d : ℕ) (xs : List float.F)
    → length xs ≡ d
    → length (norm_group float eps d xs) ≡ d
unfolding norm_group
norm_group-Keeps float eps d xs h = length-map _ xs ∙ h

by_groups :
    {F : Type 0} (f : ℕ → List F → List F) (t : Tensor F) (dim : Option ℕ)
    → ((d : ℕ) (xs : List F) → length xs ≡ d → length (f d xs) ≡ d)
    → IsTensor t
    → (r : Run (Tensor F)) → r ≡ elim dim [ none ↦ done t | some d ↦ over_groups (f d) t d ]
    → ByGroups f t r dim
unfolding over_groups
by_groups f t none keeps w r e = e
by_groups f t (some zero) keeps w r e = e
by_groups f t (some (suc d)) keeps w r e =
    let g = over_groups-Grouped (f (suc d)) (suc d) t (keeps (suc d)) (omega arith) w in
    (g.0, e ∙ g.1, g.2)

-- On a tensor whose values are as many as its shape says, softmax and layer_norm work on each run
-- of values of the length of the last dimension for itself and keep the shape; without dimensions
-- they change nothing, and they panic if the last dimension is 0.
pub softmax-layer_norm-ByGroups :
    (float : Float) (eps : float.F) (t : Tensor float.F)
    → IsTensor t
    → ByGroups (λ d. softmax_group float) t (softmax float t) (last t.shape)
      × ByGroups (norm_group float eps) t (layer_norm float eps t) (last t.shape)
unfolding softmax layer_norm
softmax-layer_norm-ByGroups float eps t w = (
  by_groups (λ d. softmax_group float) t (last t.shape) (softmax_group-Keeps float) w
      (softmax float t) refl,
  by_groups (norm_group float eps) t (last t.shape) (norm_group-Keeps float eps) w
      (layer_norm float eps t) refl,
)
