-- ===== src/Drivers/Usb/Hid.antt =====
-- kernel/src/drivers/usb/hid.rs: the keyboard. The report that the controller leaves
-- in the buffer is whatever stands there, since `read_report` is empty.
pub mod Ascii
pub mod Keys
use aetherion_os.Base.{
  ℕ, zero, suc, ◌+◌, ◌==◌, ◌!=◌, ◌||◌, not, Bool, false, if◌then◌else◌, Option, none, some, List,
  [], ◌∷◌, ◌++◌, Run, done, panic, ◌>>=◌, at, replicate, bit_and,
}
use aetherion_os.Base.Fallible.{Result, ok, err}
use aetherion_os.Drivers.Usb.Descriptor.{UsbDevice}

-- The arms of `scancode_to_ascii` that give a character: the scancode, the character with Shift,
-- and the one without.
abbrev pub ascii_arms : List (ℕ × ℕ × ℕ)
ascii_arms =
    (0x04, 0x41, 0x61)
    ∷ (0x05, 0x42, 0x62)
    ∷ (0x06, 0x43, 0x63)
    ∷ (0x07, 0x44, 0x64)
    ∷ (0x08, 0x45, 0x65)
    ∷ (0x09, 0x46, 0x66)
    ∷ (0x0A, 0x47, 0x67)
    ∷ (0x0B, 0x48, 0x68)
    ∷ (0x0C, 0x49, 0x69)
    ∷ (0x0D, 0x4A, 0x6A)
    ∷ (0x0E, 0x4B, 0x6B)
    ∷ (0x0F, 0x4C, 0x6C)
    ∷ (0x10, 0x4D, 0x6D)
    ∷ (0x11, 0x4E, 0x6E)
    ∷ (0x12, 0x4F, 0x6F)
    ∷ (0x13, 0x50, 0x70)
    ∷ (0x14, 0x51, 0x71)
    ∷ (0x15, 0x52, 0x72)
    ∷ (0x16, 0x53, 0x73)
    ∷ (0x17, 0x54, 0x74)
    ∷ (0x18, 0x55, 0x75)
    ∷ (0x19, 0x56, 0x76)
    ∷ (0x1A, 0x57, 0x77)
    ∷ (0x1B, 0x58, 0x78)
    ∷ (0x1C, 0x59, 0x79)
    ∷ (0x1D, 0x5A, 0x7A)
    ∷ (0x1E, 0x21, 0x31)
    ∷ (0x1F, 0x40, 0x32)
    ∷ (0x20, 0x23, 0x33)
    ∷ (0x21, 0x24, 0x34)
    ∷ (0x22, 0x25, 0x35)
    ∷ (0x23, 0x5E, 0x36)
    ∷ (0x24, 0x26, 0x37)
    ∷ (0x25, 0x2A, 0x38)
    ∷ (0x26, 0x28, 0x39)
    ∷ (0x27, 0x29, 0x30)
    ∷ (0x28, 0x0A, 0x0A)
    ∷ (0x29, 0x1B, 0x1B)
    ∷ (0x2A, 0x08, 0x08)
    ∷ (0x2B, 0x09, 0x09)
    ∷ (0x2C, 0x20, 0x20)
    ∷ []

pub record UsbKeyboard : Type 0 where
  pub device : UsbDevice
  pub endpoint : ℕ
  pub buffer : List ℕ
  pub modifiers : ℕ
  pub last_keys : List ℕ

pub new : UsbDevice → ℕ → UsbKeyboard
new device endpoint = record {
  device = device;
  endpoint = endpoint;
  buffer = replicate 8 0;
  modifiers = 0;
  last_keys = replicate 6 0;
}

pub read_report : UsbKeyboard → Result (Unit {0}) × UsbKeyboard
read_report k = (ok tt, k)

-- `xs[start..start + count]`, which panics out of range.
pub slice : List ℕ → ℕ → ℕ → Run (List ℕ)
slice xs start zero = done []
slice xs start (suc count) = do x ← at xs start; rest ← slice xs (start + 1) count; done (x ∷ rest)

pub get_pressed_keys : UsbKeyboard → Run (List ℕ)
unfolding slice
get_pressed_keys k = slice k.buffer 2 6

unfoldable pub match_ascii : List (ℕ × ℕ × ℕ) → Bool → ℕ → Option ℕ
match_ascii [] shift_pressed scancode = none
match_ascii ((arm, shifted, plain) ∷ arms) shift_pressed scancode =
    if scancode == arm
    then some (if shift_pressed then shifted else plain)
    else match_ascii arms shift_pressed scancode

pub scancode_to_ascii : UsbKeyboard → ℕ → Option ℕ
unfolding match_ascii
scancode_to_ascii k scancode =
    let shift_pressed = bit_and k.modifiers 0x22 != 0 in
    match_ascii ascii_arms shift_pressed scancode

abbrev pub contains : List ℕ → ℕ → Bool
contains [] a = false
contains (x ∷ xs) a = a == x || contains xs a

abbrev pub push_char : List ℕ → Option ℕ → List ℕ
push_char chars none = chars
push_char chars (some ch) = chars ++ (ch ∷ [])

-- What one round of the loop of `poll` makes of the characters.
pub poll_key : UsbKeyboard → ℕ → List ℕ → List ℕ
poll_key k scancode chars =
    if scancode == 0
    then chars
    else if not (contains k.last_keys scancode)
    then push_char chars (scancode_to_ascii k scancode)
    else chars

-- `for i in 2..8`, with the rounds left.
pub poll_keys : UsbKeyboard → ℕ → ℕ → List ℕ → Run (List ℕ)
poll_keys k zero i chars = done chars
poll_keys k (suc left) i chars = do
  scancode ← at k.buffer i
  poll_keys k left (i + 1) (poll_key k scancode chars)

-- `poll` after a report has been read.
pub poll_report : UsbKeyboard → Run (List ℕ × UsbKeyboard)
poll_report k = do
  modifiers ← at k.buffer 0
  let k' = record k { modifiers = modifiers }
  chars ← poll_keys k' 6 2 []
  last_keys ← slice k'.buffer 2 6
  done (chars, record k' { last_keys = last_keys })

abbrev pub polled : Result (Unit {0}) × UsbKeyboard → Run (List ℕ × UsbKeyboard)
polled (ok _, k) = poll_report k
polled (err message, k) = done ([], k)

pub poll : UsbKeyboard → Run (List ℕ × UsbKeyboard)
unfolding read_report poll_report
poll k = polled (read_report k)
