-- ===== src/Image/Value.antt =====
-- The representations of types and the values of src/image.c: `validate_representation`,
-- `validate_value_inner` and `hermas_image_validate_value`.
pub mod Skips
use hermas.Base.{
  ℕ, zero, suc, ◌+◌, ◌-◌, ◌*◌, Bool, true, false, not, ◌&&◌, ◌||◌, Option, none, some, List, [],
  ◌∷◌, take, drop, ltb, leb, ◌==◌, ◌!=◌, if◌then◌else◌,
}
use hermas.Base.Check.{Check, fail, pass, ◌>>=◌, ◌>>◌, refuse}
use hermas.Bytes.{byte_at, read_u16, read_u32}
use hermas.Image.{ImageResult, ok, invalid_record, invalid_value, is_ok}
use hermas.Image.Utf8.{valid_utf8}
use hermas.Protocol.{is_null, pointee}

unfoldable pub representation_valid : List ℕ → ℕ → Bool
representation_valid bytes offset =
    let kind = byte_at bytes offset in
    let children = read_u16 bytes (offset + 2) in
    let bound = read_u32 bytes (offset + 4) in
    byte_at bytes (offset + 1) == 0
    && ((leb 1 kind && leb kind 3 && children == 0 && bound == 0)
        || ((kind == 4 || kind == 5) && children == 0 && leb 1 bound && leb bound 1048576)
        || (kind == 6 && bound == 0)
        || (kind == 7 && children == 1 && leb 1 bound && leb bound 256)
        || (kind == 8 && children != 0 && bound == 0))

-- `validate_representation` on the children that are left.
unfoldable pub skip_children : (ℕ → Check ImageResult ℕ) → ℕ → ℕ → Check ImageResult ℕ
skip_children child zero cursor = pass cursor
skip_children child (suc rounds) cursor = do next ← child cursor; skip_children child rounds next

-- `validate_representation` with levels left for its children; it has none at a depth over 64. It
-- passes with the cursor.
unfoldable pub skip_levels : ℕ → List ℕ → ℕ → ℕ → Check ImageResult ℕ
unfolding representation_valid skip_children
skip_levels zero bytes end cursor = fail invalid_record
skip_levels (suc levels) bytes end cursor = do
  refuse (ltb end cursor || ltb (end - cursor) 8) invalid_record
  refuse (not (representation_valid bytes cursor)) invalid_record
  skip_children (skip_levels levels bytes end) (read_u16 bytes (cursor + 2)) (cursor + 8)

abbrev pub max_depth : ℕ
max_depth = 64

unfoldable pub validate_representation : List ℕ → ℕ → ℕ → ℕ → Check ImageResult ℕ
unfolding skip_levels
validate_representation bytes end cursor depth =
    skip_levels (max_depth + 1 - depth) bytes end cursor

-- The cursors of a representation and of a payload.
pub record Cursors : Type 0 where
  pub representation : ℕ
  pub payload : ℕ

abbrev pub Checked : Type 0
Checked = Check ImageResult Cursors

abbrev pub at : ℕ → ℕ → Cursors
at representation payload = record { representation = representation; payload = payload }

unfoldable pub payload_u32 : List ℕ → ℕ → ℕ → Option ℕ
payload_u32 payload payload_size offset =
    if ltb payload_size offset || ltb (payload_size - offset) 4
    then none
    else some (read_u32 payload offset)

-- A number of 32 bits and 32 reserved bits.
unfoldable pub payload_head : List ℕ → ℕ → ℕ → Check ImageResult ℕ
unfolding payload_u32
payload_head payload payload_size offset = elim (payload_u32 payload payload_size offset) [
  | none ↦ fail invalid_value
  | some value ↦ elim (payload_u32 payload payload_size (offset + 4)) [
    | none ↦ fail invalid_value
    | some reserved ↦ if reserved != 0 then fail invalid_value else pass value
  ]
]

abbrev pub has_zero : List ℕ → Bool
has_zero [] = false
has_zero (b ∷ bytes) = b == 0 || has_zero bytes

-- A string or bytes after its length.
unfoldable pub check_text : List ℕ → ℕ → ℕ → ℕ → ℕ → Check ImageResult ℕ
unfolding payload_head
check_text payload payload_size kind bound cursor = do
  length ← payload_head payload payload_size cursor
  refuse
      (ltb bound length
        || ltb (payload_size - 8) cursor
        || ltb (payload_size - (cursor + 8)) length)
      invalid_value
  refuse
      (kind == 4
        && (not (valid_utf8 (take length (drop (cursor + 8) payload)))
            || has_zero (take length (drop (cursor + 8) payload))))
      invalid_value
  pass (cursor + (8 + length))

-- The fields of a record that are left.
unfoldable pub check_fields : (ℕ → ℕ → Checked) → ℕ → Cursors → Checked
check_fields child zero c = pass c
check_fields child (suc rounds) c = do
  c' ← child c.representation c.payload
  check_fields child rounds c'

-- Any failure of an item or of a representation is an invalid value here.
abbrev pub as_value : {A : Type 0} → Check ImageResult A → Check ImageResult A
as_value (fail code) = fail invalid_value
as_value (pass a) = pass a

-- The items of a list that are left: the payload's cursor.
unfoldable pub check_items : (ℕ → ℕ → Checked) → ℕ → ℕ → ℕ → ℕ → Check ImageResult ℕ
check_items child zero child_start child_end cursor = pass cursor
check_items child (suc rounds) child_start child_end cursor = do
  c ← as_value (child child_start cursor)
  refuse (c.representation != child_end) invalid_value
  check_items child rounds child_start child_end c.payload

-- The cases of a variant that are left; `tag` counts down to the one that is taken.
unfoldable pub check_cases :
    (ℕ → ℕ → Checked) → (ℕ → Check ImageResult ℕ) → ℕ → ℕ → ℕ → Cursors → Checked
check_cases child skip zero index tag c = pass c
check_cases child skip (suc rounds) index tag c =
    let here =
      if index == tag
      then child c.representation c.payload
      else (do next ← as_value (skip c.representation); pass (at next c.payload)) in
    do c' ← here; check_cases child skip rounds (index + 1) tag c'

module _ (image : List ℕ) (end : ℕ) (payload : List ℕ) (payload_size : ℕ) where
  -- The payload of each kind of representation, after its 8 bytes at `r`.
  unfoldable pub check_kind : (ℕ → ℕ → Checked) → (ℕ → Check ImageResult ℕ) → ℕ → ℕ → Checked
  unfolding check_text check_fields check_items check_cases
  check_kind child skip r p =
      let kind = byte_at image r in
      let children = read_u16 image (r + 2) in
      let bound = read_u32 image (r + 4) in
      if kind == 1
      then pass (at (r + 8) p)
      else if kind == 2
      then (if ltb payload_size p || ltb (payload_size - p) 8
          then fail invalid_value
          else pass (at (r + 8) (p + 8)))
      else if kind == 3
      then (if leb payload_size p || ltb 1 (byte_at payload p)
          then fail invalid_value
          else pass (at (r + 8) (p + 1)))
      else if kind == 4 || kind == 5
      then (do p' ← check_text payload payload_size kind bound p; pass (at (r + 8) p'))
      else if kind == 6
      then check_fields child children (at (r + 8) p)
      else if kind == 7
      then (do
        count ← payload_head payload payload_size p
        refuse (ltb bound count) invalid_value
        child_end ← as_value (skip (r + 8))
        p' ← check_items child count (r + 8) child_end (p + 8)
        pass (at child_end p'))
      else if kind == 8
      then (do
        tag ← payload_head payload payload_size p
        refuse (leb children tag) invalid_value
        check_cases child skip children 0 tag (at (r + 8) (p + 8)))
      else fail invalid_value

  -- `validate_value_inner` with levels left for its children; it has none at a depth over 64.
  unfoldable pub check_levels : ℕ → ℕ → ℕ → Checked
  unfolding check_kind skip_levels
  check_levels zero r p = fail invalid_value
  check_levels (suc levels) r p = do
    refuse (ltb end r || ltb (end - r) 8) invalid_value
    check_kind (check_levels levels) (skip_levels levels image end) r p

  unfoldable pub validate_value_inner : ℕ → ℕ → ℕ → Checked
  unfolding check_levels
  validate_value_inner r p depth = check_levels (max_depth + 1 - depth) r p

-- The offset of the representation of a type, among the type records that are left.
unfoldable pub find_type : List ℕ → ℕ → ℕ → ℕ → Option ℕ
find_type image type_id zero offset = none
find_type image type_id (suc rounds) offset =
    let rest = find_type image type_id rounds (offset + 8) in
    if read_u16 image offset == type_id then some (read_u32 image (offset + 4)) else rest

abbrev pub ends_at : ℕ → Checked → ImageResult
ends_at payload_size (fail code) = invalid_value
ends_at payload_size (pass c) = if c.payload == payload_size then ok else invalid_value

-- `validate` says whether `hermas_image_validate` returns OK.
unfoldable pub validate_value :
    (List ℕ → ℕ → Bool) → List ℕ → ℕ → ℕ → Option (List ℕ) → ℕ → ImageResult
unfolding find_type validate_value_inner
validate_value validate image image_size type_id payload payload_size =
    if (is_null payload && payload_size != 0) || not (validate image image_size)
    then invalid_value
    else elim (find_type image type_id (read_u16 image 34) (read_u32 image 44)) [
      | none ↦ invalid_value
      | some r ↦
          ends_at payload_size
            (validate_value_inner image (read_u32 image 60) (pointee payload) payload_size r 0 0)
    ]
