-- ===== src/Bytes/Fields.antt =====
-- Records as lists of fields: the bytes that the fields lay down, and the buffers that hold them.
-- The two views determine each other, which carries every round trip of the codecs.
use native.Mathlib.Nat.{div-div-eq-div-mul, mul_comm, zero-add}
use hermas.Base.{
  ℕ, zero, suc, ◌+◌, ◌*◌, ◌/◌, ◌%◌, ◌^◌, ◌<◌, ◌≡◌, refl, ap, ◌∙◌, arith, List, [], ◌∷◌, ◌++◌, All,
  All-append, length, append_assoc, length-append,
}
use hermas.Bytes.{IsByte, byte_at}
use hermas.Bytes.Words.{read_le, pow_byte}

-- A field of a record: its width in bytes and its value.
abbrev pub Field : Type 0
Field = ℕ × ℕ

abbrev pub word_bytes : ℕ → ℕ → ℕ → List ℕ
word_bytes zero index value = []
word_bytes (suc width) index value =
    (value / 2 ^ (index * 8) % 256) ∷ word_bytes width (index + 1) value

abbrev pub field_bytes : List Field → List ℕ
field_bytes [] = []
field_bytes ((width, value) ∷ fields) = word_bytes width 0 value ++ field_bytes fields

abbrev pub total_width : List Field → ℕ
total_width [] = 0
total_width ((width, value) ∷ fields) = width + total_width fields

abbrev pub Fit : List Field → Type 0
Fit [] = Unit
Fit ((width, value) ∷ fields) = (value < 2 ^ (width * 8)) × Fit fields

-- The buffer holds the fields one after the other, the first at `offset`.
abbrev pub Holds : List Field → List ℕ → ℕ → Type 0
Holds [] bytes offset = Unit
Holds ((width, value) ∷ fields) bytes offset =
    (read_le width bytes offset ≡ value) × Holds fields bytes (offset + width)

word_bytes-IsByte : (width index value : ℕ) → All IsByte (word_bytes width index value)
word_bytes-IsByte zero index value = tt
word_bytes-IsByte (suc width) index value = (omega arith, word_bytes-IsByte width (index + 1) value)

pub field_bytes-IsByte : (fields : List Field) → All IsByte (field_bytes fields)
field_bytes-IsByte [] = tt
field_bytes-IsByte ((width, value) ∷ fields) =
    All-append IsByte (word_bytes width 0 value) _ (word_bytes-IsByte width 0 value)
      (field_bytes-IsByte fields)

pub shift_byte : (value index : ℕ) → value / 2 ^ ((index + 1) * 8) ≡ value / 2 ^ (index * 8) / 256
shift_byte value index = rw pow_byte (
    omega (
      arith,
      div-div-eq-div-mul value (2 ^ (index * 8)) 256,
      ap (λ (t : ℕ). value / t) (mul_comm (2 ^ (index * 8)) 256),
    ))

-- What is read back from the bytes of a word.
read_le-cons :
    (width b : ℕ) (bytes : List ℕ) (offset : ℕ)
    → read_le width (b ∷ bytes) (suc offset) ≡ read_le width bytes offset
read_le-cons zero b bytes offset = refl
read_le-cons (suc width) b bytes offset =
    ap (λ (t : ℕ). byte_at bytes offset + 256 * t) (read_le-cons width b bytes (suc offset))

read_le-word_bytes :
    (width index value : ℕ) (rest : List ℕ)
    → value < 2 ^ ((index + width) * 8)
    → read_le width (word_bytes width index value ++ rest) 0 ≡ value / 2 ^ (index * 8)
read_le-word_bytes zero index value rest h =
    let e : (index + 0) * 8 ≡ index * 8 = omega arith in
    let h' : value < 2 ^ (index * 8) = rw e at h in grind arith
read_le-word_bytes (suc width) index value rest h =
    let e : (index + suc width) * 8 ≡ (index + 1 + width) * 8 = omega arith in
    omega (
      arith,
      read_le-cons width (value / 2 ^ (index * 8) % 256)
          (word_bytes width (index + 1) value ++ rest) 0,
      read_le-word_bytes width (index + 1) value rest (rw e at h),
      shift_byte value index,
    )

Holds-cons :
    (fields : List Field) (b : ℕ) (bytes : List ℕ) (offset : ℕ)
    → Holds fields bytes offset
    → Holds fields (b ∷ bytes) (suc offset)
Holds-cons [] b bytes offset h = tt
Holds-cons ((width, value) ∷ fields) b bytes offset h =
    let e : suc offset + width ≡ suc (offset + width) = omega arith in
    (read_le-cons width b bytes offset ∙ h.0, rw e (Holds-cons fields b bytes (offset + width) h.1))

Holds-append :
    (fields : List Field) (front bytes : List ℕ) (offset : ℕ)
    → Holds fields bytes offset
    → Holds fields (front ++ bytes) (length front + offset)
Holds-append fields [] bytes offset h = rw zero-add h
Holds-append fields (b ∷ front) bytes offset h =
    let e : length (b ∷ front) + offset ≡ suc (length front + offset) = omega arith in
    rw e (
      Holds-cons fields b (front ++ bytes) (length front + offset)
        (Holds-append fields front bytes offset h))

length-word_bytes : (width index value : ℕ) → length (word_bytes width index value) ≡ width
length-word_bytes zero index value = refl
length-word_bytes (suc width) index value = ap suc (length-word_bytes width (index + 1) value)

pub length-field_bytes : (fields : List Field) → length (field_bytes fields) ≡ total_width fields
length-field_bytes [] = refl
length-field_bytes ((width, value) ∷ fields) = omega (
  arith,
  length-append (word_bytes width 0 value) (field_bytes fields),
  length-word_bytes width 0 value,
  length-field_bytes fields,
)

-- A buffer that begins with the bytes of fields that fit their widths holds these fields.
pub Holds-field_bytes :
    (fields : List Field) (rest : List ℕ) → Fit fields → Holds fields (field_bytes fields ++ rest) 0
Holds-field_bytes [] rest h = tt
Holds-field_bytes ((width, value) ∷ fields) rest h =
    let word = word_bytes width 0 value in
    let e : (0 + width) * 8 ≡ width * 8 = omega arith in
    let e' : length word + 0 ≡ 0 + width = omega (arith, length-word_bytes width 0 value) in
    rw (append_assoc word (field_bytes fields) rest) (
      read_le-word_bytes width 0 value (field_bytes fields ++ rest) (rw e h.0) ∙ omega arith,
      rw (← e') (
          Holds-append fields word (field_bytes fields ++ rest) 0
            (Holds-field_bytes fields rest h.1)),
    )

-- Fields held one group behind the other are held together.
pub Holds-join :
    (fields more : List Field) (bytes : List ℕ) (offset : ℕ)
    → Holds fields bytes offset
    → Holds more bytes (offset + total_width fields)
    → Holds (fields ++ more) bytes offset
Holds-join [] more bytes offset h k = let e : offset + 0 ≡ offset = omega arith in rw e at k
Holds-join ((width, value) ∷ fields) more bytes offset h k =
    let e : offset + (width + total_width fields) ≡ offset + width + total_width fields =
      omega arith in
    (h.0, Holds-join fields more bytes (offset + width) h.1 (rw e at k))
