-- ===== src/Drivers/Usb/Mouse/Motion.antt =====
-- What a report of the mouse of kernel/src/drivers/usb/hid.rs does.
use aetherion_os.Base.{ℕ, ◌≡◌, refl, List, [], ◌∷◌, done, Returns, at, ap, ◌∙◌}
use aetherion_os.Base.Fallible.{Result, ok}
use aetherion_os.Base.Int.{
  ℤ, as_i8, saturating_add, IsI16, ◌+ℤ◌, saturating_add-IsI16, saturating_add_exact,
}
use aetherion_os.Drivers.Usb.Mouse.{UsbMouse, poll}

-- A move along one axis: the sum where it fits an `i16`, and an `i16` in any case.
pub record Moves (before : ℤ) (byte : ℕ) (after : ℤ) : Type 0 where
  pub range : IsI16 after
  pub exact : IsI16 (before +ℤ as_i8 byte) → after ≡ before +ℤ as_i8 byte

moves : (before : ℤ) (byte : ℕ) → Moves before byte (saturating_add before (as_i8 byte))
moves before byte = record {
  range = saturating_add-IsI16 before (as_i8 byte);
  exact = saturating_add_exact before (as_i8 byte);
}

pub record Polled (m : UsbMouse) (b₀ b₁ b₂ : ℕ) (r : Result (Unit {0}) × UsbMouse) : Type 0 where
  pub succeeds : r.0 ≡ ok tt
  pub buttons : r.1.buttons ≡ b₀
  pub horizontal : Moves m.x b₁ r.1.x
  pub vertical : Moves m.y b₂ r.1.y

-- For a report of four bytes, poll succeeds and does not panic; the buttons are the first byte,
-- and each coordinate is an i16, which is the old one and the signed byte of the move where that
-- sum is an i16.
pub poll-Polled :
    (m : UsbMouse) (b₀ b₁ b₂ b₃ : ℕ)
    → m.buffer ≡ b₀ ∷ b₁ ∷ b₂ ∷ b₃ ∷ []
    → Returns (poll m) (Polled m b₀ b₁ b₂)
unfolding poll
poll-Polled m b₀ b₁ b₂ b₃ e =
    let byte =
      λ (i b : ℕ) (h : at (b₀ ∷ b₁ ∷ b₂ ∷ b₃ ∷ []) i ≡ done b). ap (λ (t : List ℕ). at t i) e ∙ h in
    (
      (
        ok tt,
        record m {
          buttons = b₀;
          x = saturating_add m.x (as_i8 b₁);
          y = saturating_add m.y (as_i8 b₂);
        },
      ),
      rw (
        byte 0 b₀ (unfold at in refl),
        byte 1 b₁ (unfold at in refl),
        byte 2 b₂ (unfold at in refl),
      ),
      record {
        succeeds = refl;
        buttons = refl;
        horizontal = moves m.x b₁;
        vertical = moves m.y b₂;
      },
    )
