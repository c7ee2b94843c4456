-- ===== src/Journal/Fingerprint.antt =====
-- The fingerprint of an image in src/journal.c.
use Prim.Native.Nat.{bit_xor}
use hermas.Base.{ℕ, ◌*◌, ◌%◌, ◌^◌, ◌<◌, ◌≢◌, refl, arith, List, [], ◌∷◌, some}
use hermas.Journal.{fingerprint_loop, image_fingerprint}

fingerprint_loop-lt :
    (image : List ℕ) (value : ℕ) → value < 2 ^ 64 → fingerprint_loop image value < 2 ^ 64
unfolding fingerprint_loop
fingerprint_loop-lt [] value h = h
fingerprint_loop-lt (b ∷ image) value h =
    fingerprint_loop-lt image (bit_xor value b * 1099511628211 % 2 ^ 64) (omega arith)

-- The fingerprint of an image that is not empty fits 64 bits and is not 0, the value that a journal
-- record may not carry.
image_fingerprint_bounds :
    (image : List ℕ)
    → image ≢ []
    → (image_fingerprint (some image) ≢ 0) × (image_fingerprint (some image) < 2 ^ 64)
unfolding image_fingerprint
image_fingerprint_bounds [] h = absurd (h refl)
image_fingerprint_bounds (b ∷ image) h =
    ground (arith, fingerprint_loop-lt (b ∷ image) 14695981039346656037)
