-- ===== src/Image/Items/Tiles.antt =====
-- The items that `hermas_image_list_items` of src/image.c finds in a payload.
use mathlib.Core.Path.{subst₂}
use hermas.Base.{
  ℕ, zero, suc, ◌+◌, ◌-◌, ◌^◌, ◌≤◌, ◌≡◌, ◌∙◌, sym, ap, refl, arith, inl, inr, Bool, not, ◌||◌, none,
  some, List, [], ◌∷◌, ltb, Option-cases, ◌!=◌, length,
}
use hermas.Base.Check.{Check, fail, pass, ◌>>=◌, ◌>>◌, refuse}
use hermas.Bytes.{byte_at, read_u32}
use hermas.Image.{ImageResult, invalid_value}
use hermas.Image.Value.{Checked, at, as_value, validate_representation, validate_value_inner}
use hermas.Image.Value.Skips.{Fits, bind-pass, guard-pass, as_value-pass, check_levels-Fits}
use hermas.Image.Items.{Item, items_loop, items_of, list_items, all_used, descriptor_of}

-- The items lie side by side from one offset to another, and a check accepts each where it lies.
abbrev pub Tiles : (ℕ → Checked) → ℕ → ℕ → List Item → Type 0
Tiles check start end [] = start ≡ end
Tiles check start end (item ∷ items) =
    (item.offset ≡ start)
    × ((r : ℕ) × (check start ≡ pass (at r (start + item.length))))
    × Tiles check (start + item.length) end items

Tiles-cons :
    (check : ℕ → Checked) (p q r end : ℕ) (items : List Item)
    → p ≤ q
    → check p ≡ pass (at r q)
    → Tiles check q end items
    → Tiles check p end (record { offset = p; length = q - p } ∷ items)
Tiles-cons check p q r end items grows accepted tiles =
    let e : p + (q - p) ≡ q = omega arith in
    (refl, (r, accepted ∙ ap (λ (n : ℕ). pass (at r n)) (sym e)), rw e tiles)

-- Two results that pass are equal in both parts.
passed :
    (P : List Item → ℕ → Type 0) (items items' : List Item) (end end' : ℕ)
    → Path (Check ImageResult (List Item × ℕ)) (pass (items, end)) (pass (items', end'))
    → P items end
    → P items' end'
passed P items items' end end' h x =
    let same : items ≡ items' = cc in let same' : end ≡ end' = cc in subst₂ P same same' x

module _ (child : ℕ → ℕ → Checked) (skip : ℕ → Check ImageResult ℕ) (size : ℕ)
    (fits : Fits child skip size) (first last : ℕ) (s : skip first ≡ pass last) where
  items_loop-Tiles :
      (rounds p end : ℕ) (items : List Item)
      → p ≤ size
      → items_loop child rounds first last p ≡ pass (items, end)
      → Tiles (λ q. child first q) p end items × (length items ≡ rounds)
  unfolding items_loop
  items_loop-Tiles zero p end items low h =
      passed (λ xs n. Tiles (λ q. child first q) p n xs × (length xs ≡ 0)) [] items p end h
        (refl, refl)
  items_loop-Tiles (suc rounds) p end items low h =
      let (c, checked, rest) =
        bind-pass (as_value (child first p))
          (λ x.
            refuse (x.representation != last) invalid_value
            >> (items_loop child rounds first last x.payload >>= λ r.
                pass (record { offset = p; length = x.payload - p } ∷ r.0, r.1)))
          (items, end) h in
      let accepted = as_value-pass (child first p) c checked in
      let (_, later) =
        guard-pass (c.representation != last) invalid_value
          (items_loop child rounds first last c.payload >>= λ r.
            pass (record { offset = p; length = c.payload - p } ∷ r.0, r.1))
          (items, end) rest in
      let ((items', end'), found, same) =
        bind-pass (items_loop child rounds first last c.payload)
          (λ r. pass (record { offset = p; length = c.payload - p } ∷ r.0, r.1)) (items, end)
          later in
      let (_, grows, inside) = fits first p last c s low accepted in
      let (tiles, counted) = items_loop-Tiles rounds c.payload end' items' inside found in
      passed (λ xs n. Tiles (λ q. child first q) p n xs × (length xs ≡ suc rounds))
        (record { offset = p; length = c.payload - p } ∷ items') items end' end same
        (
          Tiles-cons (λ q. child first q) p c.payload c.representation end' items' grows accepted
              tiles,
          ap suc counted,
        )

-- The checks of one item at depth 1.
abbrev item_check : List ℕ → ℕ → List ℕ → ℕ → ℕ → ℕ → Checked
item_check image end payload size r p = validate_value_inner image end payload size r p 1

inner-Fits :
    (image : List ℕ) (end : ℕ) (payload : List ℕ) (size : ℕ)
    → Fits (item_check image end payload size) (λ r. validate_representation image end r 1) size
unfolding validate_value_inner validate_representation
inner-Fits image end payload size r p next c s low h =
    check_levels-Fits 64 image end payload size r p next c s low h

items_of-Tiles :
    (image : List ℕ) (descriptor end : ℕ) (payload : List ℕ) (size capacity : ℕ) (items : List Item)
    → 8 ≤ size
    → items_of image descriptor end payload size capacity ≡ pass items
    → Tiles (λ p. item_check image end payload size (descriptor + 8) p) 8 size items
      × (length items ≡ read_u32 payload 0)
unfolding items_of
items_of-Tiles image descriptor end payload size capacity items low h =
    let count = read_u32 payload 0 in
    let check = item_check image end payload size in
    let skip = validate_representation image end (descriptor + 8) 1 in
    let rest = λ (last : ℕ). items_loop check count (descriptor + 8) last 8 >>= all_used size in
    let bad =
      read_u32 payload 4 != 0
      || ltb (read_u32 image (descriptor + 4)) count
      || ltb capacity count
      || ltb (2 ^ 16 - 1) count in
    let (_, h1) =
      guard-pass (byte_at image descriptor != 7) invalid_value
        (refuse bad invalid_value >> (as_value skip >>= rest)) items h in
    let (_, h2) = guard-pass bad invalid_value (as_value skip >>= rest) items h1 in
    let (last, skipped, h3) = bind-pass (as_value skip) rest items h2 in
    let ((items', used), looped, h4) =
      bind-pass (items_loop check count (descriptor + 8) last 8) (all_used size) items h3 in
    let (all, h5) = guard-pass (used != size) invalid_value (pass items') items h4 in
    let (tiles, counted) =
      items_loop-Tiles check (λ r. validate_representation image end r 1) size
        (inner-Fits image end payload size) (descriptor + 8) last (as_value-pass skip last skipped)
        count 8 used items' low looped in
    let same : items' ≡ items = cc in
    let same' : used ≡ size = ground arith in
    subst₂
      (λ (xs : List Item) (n : ℕ).
        Tiles (λ p. check (descriptor + 8) p) 8 n xs × (length xs ≡ count))
      same same' (tiles, counted)

-- When `list_items` finds items, they lie side by side in the payload, from behind the count to the
-- payload's end, as many as the count says; and `validate_value_inner` accepts each of them where it
-- lies as a value of the items' type, and ends where the item does.
pub list_items-Tiles :
    (validate : List ℕ → ℕ → Bool) (image : List ℕ) (image_size type_id : ℕ) (payload : List ℕ)
    (payload_size item_capacity : ℕ) (items : List Item)
    → list_items validate (some image) image_size type_id (some payload) payload_size item_capacity
      ≡ pass items
    → (descriptor end : ℕ) × (descriptor_of image type_id ≡ some (descriptor, end))
      × Tiles
          (λ p. validate_value_inner image end payload payload_size (descriptor + 8) p 1)
          8
          payload_size
          items
      × (length items ≡ read_u32 payload 0)
unfolding list_items
list_items-Tiles validate image image_size type_id payload payload_size item_capacity items h =
    let (small, h1) =
      guard-pass (not (validate image image_size) || ltb payload_size 8) invalid_value
        (elim (descriptor_of image type_id) [
          | none ↦ fail invalid_value
          | some (descriptor, end) ↦
              items_of image descriptor end payload payload_size item_capacity
        ])
        items h in
    elim (Option-cases (descriptor_of image type_id)) [
      | inl absent ↦ absurd (let no = rw absent at h1 in cc)
      | inr ((descriptor, end), found) ↦
          let room : 8 ≤ payload_size = ground arith in
          let (tiles, counted) =
            items_of-Tiles image descriptor end payload payload_size item_capacity items room
              (rw found at h1) in
          (descriptor, end, found, tiles, counted)
    ]
