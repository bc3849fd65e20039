-- ===== src/Drivers/Keyboard.antt =====
-- kernel/src/drivers/keyboard.rs: a ring of 256 keys.
pub mod Ring
mod Tests
use aetherion_os.Base.{
  ℕ, ◌+◌, ◌%◌, ltb, ◌==◌, if◌then◌else◌, Option, none, some, List, Run, done, panic, ◌>>=◌, at,
  length, set, replicate,
}
use aetherion_os.Base.Word.{add_usize}

pub record Keyboard : Type 0 where
  pub buffer : List ℕ
  pub read_pos : ℕ
  pub write_pos : ℕ

pub new : Keyboard
new = record { buffer = replicate 256 0; read_pos = 0; write_pos = 0 }

-- `self.buffer[index] = key`, which panics out of range.
abbrev pub store : List ℕ → ℕ → ℕ → Run (List ℕ)
store buffer index key = if ltb index (length buffer) then done (set buffer index key) else panic

pub push : Keyboard → ℕ → Run Keyboard
push k key = store k.buffer k.write_pos key >>= λ buffer.
    done (record k { buffer = buffer; write_pos = add_usize k.write_pos 1 % 256 })

pub pop : Keyboard → Run (Option ℕ × Keyboard)
pop k =
    if k.read_pos == k.write_pos
    then done (none, k)
    else (at k.buffer k.read_pos >>= λ key.
        done (some key, record k { read_pos = add_usize k.read_pos 1 % 256 }))

-- `read_key`, on the keyboard that the lock guards.
pub read_key : Keyboard → Run (Option ℕ × Keyboard)
read_key keyboard = pop keyboard
