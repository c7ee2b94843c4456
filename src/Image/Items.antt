-- ===== src/Image/Items.antt =====
-- `type_descriptor` and `hermas_image_list_items` of src/image.c.
pub mod Tiles
use hermas.Base.{
  ℕ, zero, suc, ◌+◌, ◌-◌, ◌^◌, Bool, true, false, not, ◌&&◌, ◌||◌, Option, none, some, List, [],
  ◌∷◌, length, ltb, leb, ◌==◌, ◌!=◌, ◌<◌, if◌then◌else◌,
}
use hermas.Base.Check.{Check, fail, pass, ◌>>=◌, ◌>>◌, refuse}
use hermas.Bytes.{byte_at, read_u16, read_u32}
use hermas.Image.{ImageResult, ok, invalid_value}
use hermas.Image.Value.{
  Cursors, Checked, as_value, skip_levels, validate_representation, check_levels,
  validate_value_inner,
}

-- The start and the end of a type's representation, among the type records that are left: it ends
-- where the next one starts, and the last one before the strings.
unfoldable pub type_descriptor : List ℕ → ℕ → ℕ → ℕ → ℕ → Option (ℕ × ℕ)
type_descriptor bytes strings_offset type_id zero offset = none
type_descriptor bytes strings_offset type_id (suc rounds) offset =
    let rest = type_descriptor bytes strings_offset type_id rounds (offset + 8) in
    let end = if rounds != 0 then read_u32 bytes (offset + 8 + 4) else strings_offset in
    if read_u16 bytes offset != type_id then rest else some (read_u32 bytes (offset + 4), end)

-- `type_descriptor` with the tables of the image's header.
unfoldable pub descriptor_of : List ℕ → ℕ → Option (ℕ × ℕ)
unfolding type_descriptor
descriptor_of image type_id =
    type_descriptor image (read_u32 image 60) type_id (read_u16 image 34) (read_u32 image 44)

-- Where an item starts in the payload, and its length.
pub record Item : Type 0 where
  pub offset : ℕ
  pub length : ℕ

-- The items that are left, with the payload's cursor at the end.
unfoldable pub items_loop : (ℕ → ℕ → Checked) → ℕ → ℕ → ℕ → ℕ → Check ImageResult (List Item × ℕ)
items_loop child zero child_start child_end cursor = pass ([], cursor)
items_loop child (suc rounds) child_start child_end cursor = do
  c ← as_value (child child_start cursor)
  refuse (c.representation != child_end) invalid_value
  (items, end) ← items_loop child rounds child_start child_end c.payload
  pass (record { offset = cursor; length = c.payload - cursor } ∷ items, end)

-- The items, if they end where the payload does.
abbrev pub all_used : ℕ → List Item × ℕ → Check ImageResult (List Item)
all_used payload_size (items, end) = refuse (end != payload_size) invalid_value >> pass items

-- A list of the type whose representation lies between two offsets.
unfoldable pub items_of : List ℕ → ℕ → ℕ → List ℕ → ℕ → ℕ → Check ImageResult (List Item)
unfolding items_loop validate_representation validate_value_inner
items_of image descriptor descriptor_end payload payload_size item_capacity =
    let count = read_u32 payload 0 in
    do
      refuse (byte_at image descriptor != 7) invalid_value
      refuse
          (read_u32 payload 4 != 0
            || ltb (read_u32 image (descriptor + 4)) count
            || ltb item_capacity count
            || ltb (2 ^ 16 - 1) count)
          invalid_value
      child_end ← as_value (validate_representation image descriptor_end (descriptor + 8) 1)
      found ←
          items_loop (λ r p. validate_value_inner image descriptor_end payload payload_size r p 1)
            count (descriptor + 8) child_end 8
      all_used payload_size found

-- The items of the list, which the C function writes to `item_offsets` and `item_lengths`, with
-- their number in `*item_count`; after a failure a caller does not look at them. `validate` says
-- whether `hermas_image_validate` returns OK.
unfoldable pub list_items :
    (List ℕ → ℕ → Bool)
    → Option (List ℕ)
    → ℕ
    → ℕ
    → Option (List ℕ)
    → ℕ
    → ℕ
    → Check ImageResult (List Item)
unfolding items_of descriptor_of
list_items validate (some image) image_size type_id (some payload) payload_size item_capacity = do
  refuse (not (validate image image_size) || ltb payload_size 8) invalid_value
  elim (descriptor_of image type_id) [
    | none ↦ fail invalid_value
    | some (descriptor, descriptor_end) ↦
        items_of image descriptor descriptor_end payload payload_size item_capacity
  ]
list_items validate image image_size type_id payload payload_size item_capacity = fail invalid_value
