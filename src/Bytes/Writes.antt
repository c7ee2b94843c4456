-- ===== src/Bytes/Writes.antt =====
-- Words of a buffer in which one byte was written.
use mathlib.Core.Path.{subst}
use hermas.Base.{
  ℕ, zero, suc, ◌+◌, ◌≤◌, ◌<◌, ◌≡◌, ◌≢◌, refl, sym, ◌∙◌, inl, inr, arith, List, [], ◌∷◌, All,
  All-set, set, length, ◌==◌, ==→eq, Bool-cases,
}
use hermas.Bytes.{IsByte, byte_at}
use hermas.Bytes.Words.{read_le, byte_at-IsByte}

-- A write to one byte, read back there and elsewhere.
pub byte_at-set_self : (bytes : List ℕ) (i v : ℕ) → i < length bytes → byte_at (set bytes i v) i ≡ v
byte_at-set_self [] i v h = absurd (omega arith)
byte_at-set_self (b ∷ bytes) zero v h = refl
byte_at-set_self (b ∷ bytes) (suc i) v h = byte_at-set_self bytes i v (omega arith)

pub byte_at-set_ne :
    (bytes : List ℕ) (i j v : ℕ) → i ≢ j → byte_at (set bytes i v) j ≡ byte_at bytes j
byte_at-set_ne [] i j v h = refl
byte_at-set_ne (b ∷ bytes) zero zero v h = absurd (h refl)
byte_at-set_ne (b ∷ bytes) zero (suc j) v h = refl
byte_at-set_ne (b ∷ bytes) (suc i) zero v h = refl
byte_at-set_ne (b ∷ bytes) (suc i) (suc j) v h = byte_at-set_ne bytes i j v (omega arith)

-- A word that reads the same after one of its bytes was written kept that byte.
pub read_le-set_inside :
    (width : ℕ) (bytes : List ℕ) (offset i v : ℕ)
    → All IsByte bytes
    → IsByte v
    → offset ≤ i
    → i < offset + width
    → i < length bytes
    → read_le width (set bytes i v) offset ≡ read_le width bytes offset
    → v ≡ byte_at bytes i
read_le-set_inside zero bytes offset i v hb hv lo hi fits e = absurd (omega arith)
read_le-set_inside (suc width) bytes offset i v hb hv lo hi fits e =
    let new : IsByte (byte_at (set bytes i v) offset) =
      byte_at-IsByte (set bytes i v) offset (All-set IsByte bytes i v hv hb) in
    let old : IsByte (byte_at bytes offset) = byte_at-IsByte bytes offset hb in
    elim (Bool-cases (offset == i)) [
      | inl here ↦
          let e' : offset ≡ i = ==→eq offset i here in
          let low : byte_at (set bytes i v) offset ≡ byte_at bytes offset = omega arith in
          sym (byte_at-set_self bytes i v fits)
          ∙ subst (λ t. byte_at (set bytes i v) t ≡ byte_at bytes t) e' low
      | inr later ↦
          read_le-set_inside width bytes (suc offset) i v hb hv (ground arith) (omega arith) fits
            (omega arith)
    ]

pub read_le-set_outside :
    (width : ℕ) (bytes : List ℕ) (offset i v : ℕ)
    → i < offset
    → read_le width (set bytes i v) offset ≡ read_le width bytes offset
read_le-set_outside zero bytes offset i v h = refl
read_le-set_outside (suc width) bytes offset i v h = omega (
  arith,
  byte_at-set_ne bytes i offset v (omega arith),
  read_le-set_outside width bytes (suc offset) i v (omega arith),
)
