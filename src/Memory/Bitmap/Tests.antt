-- ===== src/Memory/Bitmap/Tests.antt =====
-- Runs of kernel/src/memory/bitmap.rs, and its theorems at a bitmap of two bytes.
use aetherion_os.Base.{◌≡◌, refl, true, false, [], ◌∷◌, none, some, done, panic, Returns, at, arith}
use aetherion_os.Memory.Bitmap.{
  Bitmap, new, set, clear, is_set, update_byte, find_first_clear, find_consecutive_clear,
  count_free, scan_bytes, scan_byte, scan_run, count_from,
}
use aetherion_os.Memory.Bitmap.View.{IsValid}
use aetherion_os.Memory.Bitmap.First.{IsFirstClear, find_first_clear-IsFirstClear}
use aetherion_os.Memory.Bitmap.Consecutive.{IsFirstRun, find_consecutive_clear-IsFirstRun}

-- Twelve frames: 0 to 7, and 10, are taken.
abbrev two_bytes : Bitmap
two_bytes = record { bytes = 0xFF ∷ 4 ∷ []; size = 12 }

two_bytes-IsValid : IsValid two_bytes
two_bytes-IsValid = record { room = omega arith; words = omega arith }

searches :
    (find_first_clear two_bytes ≡ done (some 8))
    × (find_consecutive_clear two_bytes 2 ≡ done (some 8))
    × (find_consecutive_clear two_bytes 3 ≡ done none)
    × (count_free two_bytes ≡ done 3)
    × (is_set two_bytes 10 ≡ done true)
    × (is_set two_bytes 12 ≡ done false)
unfolding find_first_clear find_consecutive_clear count_free is_set scan_bytes scan_byte scan_run
    count_from at
searches = (refl, refl, refl, refl, refl, refl)

writes :
    (set two_bytes 9 ≡ done (record { bytes = 0xFF ∷ 6 ∷ []; size = 12 }))
    × (clear two_bytes 10 ≡ done (record { bytes = 0xFF ∷ 0 ∷ []; size = 12 }))
    × (set two_bytes 12 ≡ done two_bytes)
unfolding set clear update_byte at
writes = (refl, refl, refl)

-- A buffer that is too small for the number of frames makes the first access past it panic.
small_buffer : is_set (new (0 ∷ []) 9) 8 ≡ panic
unfolding is_set new at
small_buffer = refl

find_first_clear_example : Returns (find_first_clear two_bytes) (IsFirstClear two_bytes)
find_first_clear_example = find_first_clear-IsFirstClear two_bytes-IsValid

find_consecutive_clear_example :
    Returns (find_consecutive_clear two_bytes 3) (IsFirstRun two_bytes 3)
find_consecutive_clear_example = find_consecutive_clear-IsFirstRun 3 two_bytes-IsValid (omega arith)
