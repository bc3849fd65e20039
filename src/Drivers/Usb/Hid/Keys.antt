-- ===== src/Drivers/Usb/Hid/Keys.antt =====
-- What the keyboard of kernel/src/drivers/usb/hid.rs types for a report.
use mathlib.Core.List.{append-nil, append_assoc}
use mathlib.Core.Path.{ap₂}
use aetherion_os.Base.{
  ℕ, ◌+◌, ◌==◌, ◌!=◌, ◌≡◌, refl, sym, ap, ◌∙◌, arith, Bool, true, if◌then◌else◌, Option, none, some,
  List, [], ◌∷◌, ◌++◌, length, length-append, at, done, Bool-cases, inl, inr, eq→==, bit_and,
}
use aetherion_os.Drivers.Usb.Hid.Ascii.{character, match_ascii-character}
use aetherion_os.Drivers.Usb.Hid.{
  UsbKeyboard, slice, poll, poll_key, poll_keys, contains, push_char, scancode_to_ascii,
}

-- The characters of those keys of a report that were not down before.
unfoldable pub typed : Bool → List ℕ → List ℕ → List ℕ
typed shift before [] = []
typed shift before (key ∷ keys) =
    push_char []
      (if key != 0 then (if contains before key then none else character shift key) else none)
    ++ typed shift before keys

pushed :
    (chars : List ℕ) (o : Option ℕ) (rest : List ℕ)
    → push_char chars o ++ rest ≡ chars ++ (push_char [] o ++ rest)
pushed chars none rest = refl
pushed chars (some ch) rest = append_assoc chars (ch ∷ []) rest

at-append : (pre suf : List ℕ) (x : ℕ) → at (pre ++ (x ∷ suf)) (length pre) ≡ done x
unfolding at
at-append [] suf x = refl
at-append (p ∷ pre) suf x = at-append pre suf x

-- A list with a part behind a prefix, read from the index where the part starts.
record Behind (xs pre suf : List ℕ) (i : ℕ) : Type 0 where
  pub split : xs ≡ pre ++ suf
  pub index : i ≡ length pre

Behind-head : {xs pre suf : List ℕ} {i : ℕ} (x : ℕ) → Behind xs pre (x ∷ suf) i → at xs i ≡ done x
Behind-head {pre} {suf} x b = ap₂ at b.split b.index ∙ at-append pre suf x

Behind-tail :
    {xs pre suf : List ℕ} {i : ℕ} (x : ℕ)
    → Behind xs pre (x ∷ suf) i
    → Behind xs (pre ++ (x ∷ [])) suf (i + 1)
Behind-tail {pre} {suf} x b = record {
  split = b.split ∙ sym (append_assoc pre (x ∷ []) suf);
  index = omega (arith, b.index, length-append {0} pre (x ∷ []));
}

slice-Behind :
    (pre suf xs : List ℕ) (i : ℕ) → Behind xs pre suf i → slice xs i (length suf) ≡ done suf
unfolding slice
slice-Behind pre [] xs i b = refl
slice-Behind pre (x ∷ suf) xs i b =
    rw (Behind-head x b, slice-Behind (pre ++ (x ∷ [])) suf xs (i + 1) (Behind-tail x b))

-- Whether a shift key is down.
abbrev pub shift_of : ℕ → Bool
shift_of modifiers = bit_and modifiers 0x22 != 0

-- One round of the loop pushes what the key types.
scancode_to_ascii-character :
    (k : UsbKeyboard) (key : ℕ) → scancode_to_ascii k key ≡ character (shift_of k.modifiers) key
unfolding scancode_to_ascii
scancode_to_ascii-character k key = match_ascii-character (shift_of k.modifiers) key

poll_key_lem :
    (k : UsbKeyboard) (key : ℕ) (keys chars : List ℕ)
    → poll_key k key chars ++ typed (shift_of k.modifiers) k.last_keys keys
      ≡ chars ++ typed (shift_of k.modifiers) k.last_keys (key ∷ keys)
unfolding poll_key typed
poll_key_lem k key keys chars = elim (Bool-cases (key == 0)) [
  | inl none_down ↦ rw none_down
  | inr down ↦ rw down (elim (Bool-cases (contains k.last_keys key)) [
    | inl held ↦ rw held
    | inr fresh ↦
        rw (fresh, scancode_to_ascii-character k key)
          (pushed chars (character (shift_of k.modifiers) key) _)
  ])
]

poll_keys-Behind :
    (k : UsbKeyboard) (pre suf chars : List ℕ) (i : ℕ)
    → Behind k.buffer pre suf i
    → poll_keys k (length suf) i chars
      ≡ done (chars ++ typed (shift_of k.modifiers) k.last_keys suf)
unfolding poll_keys typed
poll_keys-Behind k pre [] chars i b = ap done (sym (append-nil chars))
poll_keys-Behind k pre (x ∷ suf) chars i b = rw (Behind-head x b) (
    poll_keys-Behind k (pre ++ (x ∷ [])) suf (poll_key k x chars) (i + 1) (Behind-tail x b)
    ∙ ap done (poll_key_lem k x suf chars))

-- After a poll the keys of the report are the last ones, and the modifiers are its first byte.
abbrev pub polled_state : UsbKeyboard → ℕ → List ℕ → UsbKeyboard
polled_state k modifiers keys = record k { modifiers = modifiers; last_keys = keys }

poll_report_once :
    (k : UsbKeyboard) (modifiers reserved : ℕ) (keys : List ℕ)
    → k.buffer ≡ modifiers ∷ reserved ∷ keys
    → length keys ≡ 6
    → poll k ≡ done (typed (shift_of modifiers) k.last_keys keys, polled_state k modifiers keys)
unfolding poll
poll_report_once k modifiers reserved keys e n =
    let behind : Behind k.buffer (modifiers ∷ reserved ∷ []) keys 2 = record {
      split = e;
      index = refl;
    } in
    let first : at k.buffer 0 ≡ done modifiers = rw e (unfold at in refl) in
    let k' = record k { modifiers = modifiers } in
    let chars : poll_keys k' 6 2 [] ≡ done (typed (shift_of modifiers) k.last_keys keys) =
      ap (λ (t : ℕ). poll_keys k' t 2 []) (sym n)
      ∙ poll_keys-Behind k' (modifiers ∷ reserved ∷ []) keys [] 2 behind in
    let kept : slice k.buffer 2 6 ≡ done keys =
      ap (slice k.buffer 2) (sym n)
      ∙ slice-Behind (modifiers ∷ reserved ∷ []) keys k.buffer 2 behind in
    rw (first, chars, kept)

contains_middle : (pre suf : List ℕ) (x : ℕ) → contains (pre ++ (x ∷ suf)) x ≡ true
contains_middle [] suf x = ground (arith, eq→== x x refl)
contains_middle (p ∷ pre) suf x = ground (arith, contains_middle pre suf x)

-- Keys that were down before type nothing.
typed_held :
    (shift : Bool) (before pre suf : List ℕ) → before ≡ pre ++ suf → typed shift before suf ≡ []
unfolding typed
typed_held shift before pre [] e = refl
typed_held shift before pre (x ∷ suf) e =
    let held : contains before x ≡ true =
      ap (λ (t : List ℕ). contains t x) e ∙ contains_middle pre suf x in
    let rest =
      typed_held shift before (pre ++ (x ∷ [])) suf (e ∙ sym (append_assoc pre (x ∷ []) suf)) in
    rw (held, rest) (elim (Bool-cases (x != 0)) [ inl down ↦ rw down | inr up ↦ rw up ])

-- For a report of a modifier byte, a reserved byte and six keys, poll returns the characters of
-- the keys that were not down before, in the order of the report and with its Shift, and keeps the
-- report; the characters are the letters from scancode 4 on, the digits or the signs above them
-- from 30 on, and newline, escape, backspace, tab and space from 40 on, and there is none for any
-- other scancode; a second poll of the same report types nothing and changes nothing.
pub poll-typed :
    (k : UsbKeyboard) (modifiers reserved : ℕ) (keys : List ℕ)
    → k.buffer ≡ modifiers ∷ reserved ∷ keys
    → length keys ≡ 6
    → (poll k ≡ done (typed (shift_of modifiers) k.last_keys keys, polled_state k modifiers keys))
      × (poll (polled_state k modifiers keys) ≡ done ([], polled_state k modifiers keys))
poll-typed k modifiers reserved keys e n = (
  poll_report_once k modifiers reserved keys e n,
  poll_report_once (polled_state k modifiers keys) modifiers reserved keys e n
      ∙ ap (λ (t : List ℕ). done (t, polled_state k modifiers keys))
          (typed_held (shift_of modifiers) keys [] keys refl),
)
