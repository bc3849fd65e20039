-- ===== src/Base/Action.antt =====
-- Code that changes a state and returns a value: hardware that is read and written.
infixl 5 ◌>>=◌ ◌>>◌
abbrev pub ◌>>=◌ : {S A B : Type 0} → (S → A × S) → (A → S → B × S) → S → B × S
◌>>=◌ m f s = f (m s).0 (m s).1

abbrev pub ◌>>◌ : {S B : Type 0} → (S → Unit {0} × S) → (S → B × S) → S → B × S
◌>>◌ m k s = k (m s).1

abbrev pub pure : {S A : Type 0} → A → S → A × S
pure a s = (a, s)
