-- ===== src/Drivers/Keyboard/Ring.antt =====
-- The ring of kernel/src/drivers/keyboard.rs as the queue of the keys that were not yet read.
use aetherion_os.Base.{
  ℕ, zero, suc, ◌+◌, ◌-◌, ◌%◌, ◌<◌, ◌≡◌, ◌≢◌, refl, ap, ◌∙◌, ◌==◌, if◌then◌else◌, Option, none,
  some, List, [], ◌∷◌, ◌++◌, Returns, at_in_range, length, set, get_or, length-set, get_or-set_self,
  get_or-set_ne, length-replicate, lt→ltb, eq→==, ne→==, arith, ℕ_discrete,
}
use aetherion_os.Base.Word.{add_usize}
use aetherion_os.Drivers.Keyboard.{Keyboard, new, push, pop, read_key}

pub record IsValid (k : Keyboard) : Type 0 where
  pub size : length k.buffer ≡ 256
  pub read : k.read_pos < 256
  pub write : k.write_pos < 256

-- `n` keys from position `r` on.
abbrev pub window : List ℕ → ℕ → ℕ → List ℕ
window b zero r = []
window b (suc n) r = get_or b (r % 256) 0 ∷ window b n (r + 1)

abbrev pub count : Keyboard → ℕ
count k = (k.write_pos + 256 - k.read_pos) % 256

-- The keys that were pushed and not yet popped.
abbrev pub keys : Keyboard → List ℕ
keys k = window k.buffer (count k) k.read_pos

window-append :
    (b : List ℕ) (n r : ℕ) → window b (suc n) r ≡ window b n r ++ (get_or b ((r + n) % 256) 0 ∷ [])
window-append b zero r = ap (λ (x : ℕ). get_or b (x % 256) 0 ∷ []) (omega arith)
window-append b (suc n) r =
    ap (λ (l : List ℕ). get_or b (r % 256) 0 ∷ l)
      (window-append b n (r + 1)
        ∙ ap (λ (x : ℕ). window b n (r + 1) ++ (get_or b (x % 256) 0 ∷ [])) (omega arith))

window-set :
    (b : List ℕ) (w key n r : ℕ)
    → ((j : ℕ) → j < n → w ≢ (r + j) % 256)
    → window (set b w key) n r ≡ window b n r
window-set b w key zero r h = refl
window-set b w key (suc n) r h =
    let first : w ≢ r % 256 = λ e. h 0 (omega arith) (omega (arith, e)) in
    rw (get_or-set_ne b w (r % 256) key 0 first) (
      ap (λ (l : List ℕ). get_or b (r % 256) 0 ∷ l)
        (window-set b w key n (r + 1) (λ j lt e. h (j + 1) (omega arith) (omega (arith, e)))))

-- Positions count modulo 256.
window_wrap : (b : List ℕ) (n r s : ℕ) → r % 256 ≡ s % 256 → window b n r ≡ window b n s
window_wrap b zero r s h = refl
window_wrap b (suc n) r s h =
    ap (λ (x : ℕ). get_or b x 0 ∷ window b n (r + 1)) h
    ∙ ap (λ (l : List ℕ). get_or b (s % 256) 0 ∷ l)
        (window_wrap b n (r + 1) (s + 1) (omega (arith, h)))

pushed_keys :
    (k : Keyboard) (key : ℕ)
    → IsValid k
    → keys (record k {
      buffer = set k.buffer k.write_pos key;
      write_pos = add_usize k.write_pos 1 % 256;
    })
      ≡ (if count k == 255 then [] else keys k ++ (key ∷ []))
pushed_keys k key v =
    let b = set k.buffer k.write_pos key in
    let r = k.read_pos in
    let n = count k in
    elim (ℕ_discrete n 255) [
      | yes e ↦
          let gone : (add_usize k.write_pos 1 % 256 + 256 - r) % 256 ≡ 0 =
            omega (arith, v.read, v.write, e) in
          ap (λ (x : ℕ). window b x r) gone ∙ rw (eq→== n 255 e) refl
      | no ne ↦
          let more : (add_usize k.write_pos 1 % 256 + 256 - r) % 256 ≡ suc n =
            omega (arith, v.read, v.write, ne) in
          let end : (r + n) % 256 ≡ k.write_pos = omega (arith, v.read, v.write) in
          ap (λ (x : ℕ). window b x r) more
          ∙ window-append b n r
          ∙ ap (λ (x : ℕ). window b n r ++ (get_or b x 0 ∷ [])) end
          ∙ ap (λ (x : ℕ). window b n r ++ (x ∷ []))
              (get_or-set_self k.buffer k.write_pos key 0 (omega (arith, v.size, v.write)))
          ∙ ap (λ (l : List ℕ). l ++ (key ∷ []))
              (window-set k.buffer k.write_pos key n r
                (λ j lt same. absurd (omega (arith, v.read, v.write, lt, same))))
          ∙ rw (ne→== n 255 ne) refl
    ]

-- What `push` makes: the key waits behind the others; but if 255 keys wait, none does any longer.
abbrev pub Pushed : Keyboard → ℕ → Keyboard → Type 0
Pushed k key k' = IsValid k' × (keys k' ≡ (if count k == 255 then [] else keys k ++ (key ∷ [])))

push-Pushed : {k : Keyboard} (key : ℕ) → IsValid k → Returns (push k key) (Pushed k key)
unfolding push
push-Pushed {k} key v = (
  _,
  rw (lt→ltb k.write_pos (length k.buffer) (omega (arith, v.size, v.write))) refl,
  (
    record {
      size = length-set k.buffer k.write_pos key ∙ v.size;
      read = v.read;
      write = omega arith;
    },
    pushed_keys k key v,
  ),
)

-- What `pop` returns: the first of the keys that wait, which then waits no longer; or none, with no
-- change, if none waits.
abbrev pub Popped : Keyboard → Option ℕ × Keyboard → Type 0
Popped k (none, k') = (k' ≡ k) × (keys k ≡ [])
Popped k (some key, k') = IsValid k' × (keys k ≡ key ∷ keys k')

popped_keys :
    (k : Keyboard)
    → IsValid k
    → k.read_pos ≢ k.write_pos
    → keys k
      ≡ get_or k.buffer k.read_pos 0 ∷ keys (record k { read_pos = add_usize k.read_pos 1 % 256 })
popped_keys k v ne =
    let r' = add_usize k.read_pos 1 % 256 in
    let fewer : count k ≡ suc ((k.write_pos + 256 - r') % 256) =
      omega (arith, v.read, v.write, ne) in
    ap (λ (x : ℕ). window k.buffer x k.read_pos) fewer
    ∙ ap
        (λ (x : ℕ).
          get_or k.buffer x 0 ∷ window k.buffer ((k.write_pos + 256 - r') % 256) (k.read_pos + 1))
        (omega (arith, v.read))
    ∙ ap (λ (l : List ℕ). get_or k.buffer k.read_pos 0 ∷ l)
        (window_wrap k.buffer ((k.write_pos + 256 - r') % 256) (k.read_pos + 1) r'
          (omega (arith, v.read)))

no_keys : (k : Keyboard) → IsValid k → k.read_pos ≡ k.write_pos → keys k ≡ []
no_keys k v e =
    let none_left : count k ≡ 0 = omega (arith, v.read, e) in
    ap (λ (x : ℕ). window k.buffer x k.read_pos) none_left

pop-Popped : {k : Keyboard} → IsValid k → Returns (pop k) (Popped k)
unfolding pop
pop-Popped {k} v = elim (ℕ_discrete k.read_pos k.write_pos) [
  | yes e ↦ ((none, k), rw (eq→== k.read_pos k.write_pos e) refl, (refl, no_keys k v e))
  | no ne ↦ (
    (some (get_or k.buffer k.read_pos 0), record k { read_pos = add_usize k.read_pos 1 % 256 }),
    rw
        (
          ne→== k.read_pos k.write_pos ne,
          at_in_range k.buffer k.read_pos 0 (omega (arith, v.size, v.read)),
        )
        refl,
    (record { size = v.size; read = omega arith; write = v.write }, popped_keys k v ne),
  )
]

new-IsValid : IsValid new × (keys new ≡ [])
unfolding new
new-IsValid = (
  record { size = length-replicate {A = ℕ} 256 0; read = omega arith; write = omega arith },
  refl,
)

-- A new ring is valid and empty. On a valid ring push and read_key return and keep it valid: push
-- puts the key behind those that wait, unless 255 wait, and then none waits any longer; read_key
-- takes the first of those that wait, or returns none and changes nothing if none waits.
pub ring_is_queue :
    {k : Keyboard} (key : ℕ)
    → IsValid k
    → (IsValid new × (keys new ≡ []))
      × Returns (push k key) (Pushed k key)
      × Returns (read_key k) (Popped k)
unfolding read_key
ring_is_queue key v = (new-IsValid, push-Pushed key v, pop-Popped v)
