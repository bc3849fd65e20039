-- ===== src/Ai/AudioBuffer/Tests.antt =====
-- A buffer of three samples.
use aetherion_os.Base.{◌≡◌, refl, arith, [], ◌∷◌, done, Returns}
use aetherion_os.Base.Int.{pos, negsuc}
use aetherion_os.Ai.AudioBuffer.{AudioBuffer, push, push_one}
use aetherion_os.Ai.AudioBuffer.Latest.{IsBounded, Keeps, push-Keeps}

abbrev three : AudioBuffer
three = record { buffer = pos 1 ∷ pos 2 ∷ []; sample_rate = 16000; capacity = 3 }

three-IsBounded : IsBounded three
three-IsBounded = record { bound = omega arith; room = omega arith }

push-Keeps_example :
    Returns (push three (pos 3 ∷ negsuc 3 ∷ [])) (Keeps three (pos 3 ∷ negsuc 3 ∷ []))
push-Keeps_example = push-Keeps three (pos 3 ∷ negsuc 3 ∷ []) three-IsBounded

pushed :
    push three (pos 3 ∷ negsuc 3 ∷ [])
    ≡ done (record three { buffer = pos 2 ∷ pos 3 ∷ negsuc 3 ∷ [] })
unfolding push push_one
pushed = refl
