-- ===== src/Drivers/Keyboard/Tests.antt =====
-- Runs of kernel/src/drivers/keyboard.rs, and its theorem at a ring with one key.
use aetherion_os.Base.{
  ℕ, ◌≡◌, refl, [], ◌∷◌, some, done, Returns, replicate, length-replicate, at, arith,
}
use aetherion_os.Drivers.Keyboard.{Keyboard, new, push, pop, read_key}
use aetherion_os.Drivers.Keyboard.Ring.{IsValid, keys, Pushed, Popped, ring_is_queue}

-- The last position is written, the first is next.
abbrev at_end : Keyboard
at_end = record { buffer = replicate 256 7; read_pos = 255; write_pos = 0 }

at_end-IsValid : IsValid at_end
at_end-IsValid = record {
  size = length-replicate {A = ℕ} 256 7;
  read = omega arith;
  write = omega arith;
}

keys-at_end : keys at_end ≡ 7 ∷ []
keys-at_end = refl

read_key-at_end : read_key at_end ≡ done (some 7, record at_end { read_pos = 0 })
unfolding read_key pop at
read_key-at_end = refl

ring_is_queue_example :
    (IsValid new × (keys new ≡ []))
    × Returns (push at_end 9) (Pushed at_end 9)
    × Returns (read_key at_end) (Popped at_end)
ring_is_queue_example = ring_is_queue 9 at_end-IsValid
