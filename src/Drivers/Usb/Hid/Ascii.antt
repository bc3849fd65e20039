-- ===== src/Drivers/Usb/Hid/Ascii.antt =====
-- What the character table of kernel/src/drivers/usb/hid.rs is by the usage tables of USB keyboards.
use aetherion_os.Base.{
  ℕ, zero, suc, ◌+◌, ◌-◌, ◌≤◌, ◌<◌, ◌≡◌, refl, ◌∙◌, sym, arith, ltb, ◌==◌, ◌&&◌, Bool, true, false,
  if◌then◌else◌, Option, none, some, List, [], ◌∷◌, get_elem?, dec_lt, ap, All, ne→==, le→ltb,
}
use aetherion_os.Drivers.Usb.Hid.{ascii_arms, match_ascii}

-- Letters from 0x04 on, digits and the signs above them from 0x1E on, and five more keys.
abbrev pub character : Bool → ℕ → Option ℕ
character shift key =
    if ltb key 0x04
    then none
    else if ltb key 0x1E
    then some ((if shift then 0x41 else 0x61) + (key - 0x04))
    else if ltb key 0x28
    then get_elem?
        (if shift
          then 0x21 ∷ 0x40 ∷ 0x23 ∷ 0x24 ∷ 0x25 ∷ 0x5E ∷ 0x26 ∷ 0x2A ∷ 0x28 ∷ 0x29 ∷ []
          else 0x31 ∷ 0x32 ∷ 0x33 ∷ 0x34 ∷ 0x35 ∷ 0x36 ∷ 0x37 ∷ 0x38 ∷ 0x39 ∷ 0x30 ∷ [])
        (key - 0x1E)
    else get_elem? (0x0A ∷ 0x1B ∷ 0x08 ∷ 0x09 ∷ 0x20 ∷ []) (key - 0x28)

-- Whether two functions agree at each number below a bound.
abbrev same : Option ℕ → Option ℕ → Bool
same none none = true
same none (some b) = false
same (some a) none = false
same (some a) (some b) = a == b

agree : (ℕ → Option ℕ) → (ℕ → Option ℕ) → ℕ → Bool
agree f g zero = true
agree f g (suc n) = same (f n) (g n) && agree f g n

same_sound : (o p : Option ℕ) → same o p ≡ true → o ≡ p
same_sound none none e = refl
same_sound none (some b) e = ground arith
same_sound (some a) none e = ground arith
same_sound (some a) (some b) e = let q : a ≡ b = ground arith in rw q refl

agree_sound : (f g : ℕ → Option ℕ) (n key : ℕ) → agree f g n ≡ true → key < n → f key ≡ g key
unfolding agree
agree_sound f g zero key e lt = absurd (omega arith)
agree_sound f g (suc n) key e lt =
    let parts : (same (f n) (g n) ≡ true) × (agree f g n ≡ true) = ground arith in
    elim (dec_lt key n) [
      | yes below ↦ agree_sound f g n key parts.1 below
      | no top ↦
          let q : key ≡ n = omega arith in ap f q ∙ same_sound (f n) (g n) parts.0 ∙ ap g (sym q)
    ]

table : (shift : Bool) → agree (match_ascii ascii_arms shift) (character shift) 0x2D ≡ true
unfolding match_ascii agree
table true = refl
table false = refl

-- No arm has a scancode that is above all of them.
no_arm :
    (shift : Bool) (key : ℕ) (arms : List (ℕ × ℕ × ℕ))
    → All (λ arm. arm.0 < 0x2D) arms
    → 0x2D ≤ key
    → match_ascii arms shift key ≡ none
unfolding match_ascii
no_arm shift key [] h above = refl
no_arm shift key ((arm, shifted, plain) ∷ arms) h above =
    rw (ne→== key arm (omega (arith, h.0))) (no_arm shift key arms h.1 above)

above_character : (shift : Bool) (key : ℕ) → 0x2D ≤ key → character shift key ≡ none
above_character shift key h =
    let e : key - 0x28 ≡ suc (suc (suc (suc (suc (key - 0x2D))))) = omega arith in
    rw
      (
        le→ltb key 0x04 (omega arith),
        le→ltb key 0x1E (omega arith),
        le→ltb key 0x28 (omega arith),
        e,
      )
      refl

pub match_ascii-character :
    (shift : Bool) (key : ℕ) → match_ascii ascii_arms shift key ≡ character shift key
match_ascii-character shift key = elim (dec_lt key 0x2D) [
  | yes below ↦
      agree_sound (match_ascii ascii_arms shift) (character shift) 0x2D key (table shift) below
  | no above ↦
      no_arm shift key ascii_arms (omega arith) (omega arith)
      ∙ sym (above_character shift key (omega arith))
]
