-- ===== src/Image/Value/Skips.antt =====
-- Where `validate_value_inner` of src/image.c leaves its two cursors.
use hermas.Base.{
  ℕ, zero, suc, ◌+◌, ◌-◌, ◌≤◌, ◌≡◌, ◌∙◌, ap, refl, arith, inl, inr, Bool, true, false, not, ◌&&◌,
  ◌||◌, some, List, take, drop, ltb, leb, Bool-cases, Option-cases, ◌==◌, ◌!=◌, ==→eq, leb→le,
}
use hermas.Base.Check.{Check, fail, pass, ◌>>=◌, ◌>>◌, refuse, Check-cases}
use hermas.Bytes.{byte_at, read_u16, read_u32}
use hermas.Image.{ImageResult, invalid_value, invalid_record}
use hermas.Image.Utf8.{valid_utf8}
use hermas.Image.Value.{
  has_zero, Cursors, Checked, at, as_value, skip_children, skip_levels, representation_valid,
  payload_head, payload_u32, check_text, check_fields, check_items, check_cases, check_kind,
  check_levels,
}

-- A check that ends where the representation does, and inside the payload.
abbrev pub Fits : (ℕ → ℕ → Checked) → (ℕ → Check ImageResult ℕ) → ℕ → Type 0
Fits child skip size =
    (r p next : ℕ) (c : Cursors)
    → skip r ≡ pass next
    → p ≤ size
    → child r p ≡ pass c
    → (c.representation ≡ next) × (p ≤ c.payload) × (c.payload ≤ size)

-- The two halves of a chain that passes.
pub bind-pass :
    {A B : Type 0} (m : Check ImageResult A) (f : A → Check ImageResult B) (b : B)
    → (m >>= f) ≡ pass b
    → (a : A) × (m ≡ pass a) × (f a ≡ pass b)
bind-pass (fail code) f b h = absurd cc
bind-pass (pass a) f b h = (a, refl, h)

pub guard-pass :
    {B : Type 0} (bad : Bool) (code : ImageResult) (m : Check ImageResult B) (b : B)
    → (refuse bad code >> m) ≡ pass b
    → (bad ≡ false) × (m ≡ pass b)
guard-pass true code m b h = absurd cc
guard-pass false code m b h = (refl, h)

pub refuse-pass : (bad : Bool) (code : ImageResult) → refuse bad code ≡ pass tt → bad ≡ false
refuse-pass true code h = absurd cc
refuse-pass false code h = refl

pub as_value-pass :
    {A : Type 0} (m : Check ImageResult A) (a : A) → as_value m ≡ pass a → m ≡ pass a
as_value-pass (fail code) a h = absurd cc
as_value-pass (pass x) a h = h

module _ (child : ℕ → ℕ → Checked) (skip : ℕ → Check ImageResult ℕ) (size : ℕ)
    (fits : Fits child skip size) where
  check_fields-Fits :
      (rounds : ℕ) (c c' : Cursors) (next : ℕ)
      → skip_children skip rounds c.representation ≡ pass next
      → c.payload ≤ size
      → check_fields child rounds c ≡ pass c'
      → (c'.representation ≡ next) × (c.payload ≤ c'.payload) × (c'.payload ≤ size)
  unfolding skip_children check_fields
  check_fields-Fits zero c c' next s low h =
      let same : c ≡ c' = cc in
      let end : c.representation ≡ next = cc in rw⁻¹ same (end, omega arith, low)
  check_fields-Fits (suc rounds) c c' next s low h =
      let (next', skips, rest) =
        bind-pass (skip c.representation) (λ n. skip_children skip rounds n) next s in
      let (d, first, later) =
        bind-pass (child c.representation c.payload) (λ x. check_fields child rounds x) c' h in
      let (end, grows, inside) = fits c.representation c.payload next' d skips low first in
      let (end', grows', inside') = check_fields-Fits rounds d c' next (rw end rest) inside later in
      (end', omega (arith, grows, grows'), inside')

  check_items-Fits :
      (rounds child_start child_end p p' : ℕ)
      → skip child_start ≡ pass child_end
      → p ≤ size
      → check_items child rounds child_start child_end p ≡ pass p'
      → (p ≤ p') × (p' ≤ size)
  unfolding check_items
  check_items-Fits zero child_start child_end p p' s low h =
      let same : p ≡ p' = cc in (omega (arith, same), omega (arith, same))
  check_items-Fits (suc rounds) child_start child_end p p' s low h =
      let (c, passed, rest) =
        bind-pass (as_value (child child_start p))
          (λ x.
            refuse (x.representation != child_end) invalid_value
            >> check_items child rounds child_start child_end x.payload)
          p' h in
      let (_, later) =
        guard-pass (c.representation != child_end) invalid_value
          (check_items child rounds child_start child_end c.payload) p' rest in
      let (end, grows, inside) =
        fits child_start p child_end c s low (as_value-pass (child child_start p) c passed) in
      let (grows', inside') =
        check_items-Fits rounds child_start child_end c.payload p' s inside later in
      (omega (arith, grows, grows'), inside')

  check_cases-Fits :
      (rounds index tag : ℕ) (c c' : Cursors) (next : ℕ)
      → skip_children skip rounds c.representation ≡ pass next
      → c.payload ≤ size
      → check_cases child skip rounds index tag c ≡ pass c'
      → (c'.representation ≡ next) × (c.payload ≤ c'.payload) × (c'.payload ≤ size)
  unfolding skip_children check_cases
  check_cases-Fits zero index tag c c' next s low h =
      let same : c ≡ c' = cc in
      let end : c.representation ≡ next = cc in rw⁻¹ same (end, omega arith, low)
  check_cases-Fits (suc rounds) index tag c c' next s low h =
      let (next', skips, rest) =
        bind-pass (skip c.representation) (λ n. skip_children skip rounds n) next s in
      elim (Bool-cases (index == tag)) [
        | inl taken ↦
            let (d, first, later) =
              bind-pass (child c.representation c.payload)
                (λ x. check_cases child skip rounds (index + 1) tag x) c' (rw taken at h) in
            let (end, grows, inside) = fits c.representation c.payload next' d skips low first in
            let (end', grows', inside') =
              check_cases-Fits rounds (index + 1) tag d c' next (rw end rest) inside later in
            (end', omega (arith, grows, grows'), inside')
        | inr passed ↦
            check_cases-Fits rounds (index + 1) tag (at next' c.payload) c' next rest low
              (rw (passed, skips) at h)
      ]

payload_u32-room :
    (payload : List ℕ) (size p v : ℕ) → payload_u32 payload size p ≡ some v → p + 4 ≤ size
unfolding payload_u32
payload_u32-room payload size p v h = ground arith

payload_head-room :
    (payload : List ℕ) (size p v : ℕ) → payload_head payload size p ≡ pass v → p + 8 ≤ size
unfolding payload_head
payload_head-room payload size p v h = elim (Option-cases (payload_u32 payload size p)) [
  | inl short ↦ absurd (let no = rw (short, payload_head) at h in cc)
  | inr (x, first) ↦ elim (Option-cases (payload_u32 payload size (p + 4))) [
    | inl short ↦ absurd (let no = rw (first, short, payload_head) at h in cc)
    | inr (y, second) ↦
        let room = payload_u32-room payload size (p + 4) y second in omega (arith, room)
  ]
]

check_text-room :
    (payload : List ℕ) (size kind bound p p' : ℕ)
    → check_text payload size kind bound p ≡ pass p'
    → (p ≤ p') × (p' ≤ size)
unfolding check_text
check_text-room payload size kind bound p p' h = elim (Check-cases (payload_head payload size p)) [
  | inl (code, short) ↦ absurd (let no = rw (short, check_text) at h in cc)
  | inr (length, head) ↦
      let room = payload_head-room payload size p length head in
      let opened = rw (head, check_text) at h in
      elim (Bool-cases (ltb bound length || ltb (size - 8) p || ltb (size - (p + 8)) length)) [
        | inl bad ↦ absurd (let no = rw bad at opened in cc)
        | inr fine ↦
            let bad =
              kind == 4
              && (not (valid_utf8 (take length (drop (p + 8) payload)))
                  || has_zero (take length (drop (p + 8) payload))) in
            let (_, end) =
              guard-pass bad invalid_value (pass (p + (8 + length))) p' (rw fine at opened) in
            let same : p + (8 + length) ≡ p' = cc in
            let fit : length ≤ size - (p + 8) = ground arith in
            (omega (arith, same), omega (arith, same, fit, room))
      ]
]

-- The number of children that a valid representation of a kind without or with one has.
childless :
    (image : List ℕ) (r : ℕ)
    → representation_valid image r ≡ true
    → byte_at image r ≤ 5
    → read_u16 image (r + 2) ≡ 0
unfolding representation_valid
childless image r valid low = ground arith

one_child :
    (image : List ℕ) (r : ℕ)
    → representation_valid image r ≡ true
    → byte_at image r ≡ 7
    → read_u16 image (r + 2) ≡ 1
unfolding representation_valid
one_child image r valid list = ground arith

not-false : (b : Bool) → not b ≡ false → b ≡ true
not-false true h = refl
not-false false h = absurd cc

module _ (image : List ℕ) (end : ℕ) (payload : List ℕ) (size : ℕ) (child : ℕ → ℕ → Checked)
    (skip : ℕ → Check ImageResult ℕ) (fits : Fits child skip size) where
  passed_at :
      (r' p' p next : ℕ) (c : Cursors)
      → Path Checked (pass (at r' p')) (pass c)
      → r' ≡ next
      → p ≤ p'
      → p' ≤ size
      → (c.representation ≡ next) × (p ≤ c.payload) × (c.payload ≤ size)
  passed_at r' p' p next c h e low high = let same : at r' p' ≡ c = cc in rw⁻¹ same (e, low, high)

  text-Fits :
      (r p next kind bound : ℕ) (c : Cursors)
      → r + 8 ≡ next
      → (check_text payload size kind bound p >>= λ p'. pass (at (r + 8) p')) ≡ pass c
      → (c.representation ≡ next) × (p ≤ c.payload) × (c.payload ≤ size)
  text-Fits r p next kind bound c e h =
      let (p', text, same) =
        bind-pass (check_text payload size kind bound p) (λ q. pass (at (r + 8) q)) c h in
      let (low, high) = check_text-room payload size kind bound p p' text in
      passed_at (r + 8) p' p next c same e low high

  -- A kind whose representation has no children.
  scalar-Fits :
      (r p next : ℕ) (c : Cursors)
      → representation_valid image r ≡ true
      → byte_at image r ≤ 5
      → skip_children skip (read_u16 image (r + 2)) (r + 8) ≡ pass next
      → p ≤ size
      → check_kind image end payload size child skip r p ≡ pass c
      → (c.representation ≡ next) × (p ≤ c.payload) × (c.payload ≤ size)
  unfolding check_kind skip_children
  scalar-Fits r p next c valid low s inside h =
      let bare = childless image r valid low in
      let kind = byte_at image r in
      let e : r + 8 ≡ next = (let none_left = rw bare at s in cc) in
      elim (Bool-cases (kind == 1)) [
        | inl unit ↦ passed_at (r + 8) p p next c (rw unit at h) e (omega arith) inside
        | inr not_unit ↦ elim (Bool-cases (kind == 2)) [
          | inl integer ↦ elim (Bool-cases (ltb size p || ltb (size - p) 8)) [
            | inl bad ↦ absurd (let no = rw (not_unit, integer, bad) at h in cc)
            | inr fine ↦
                let room : p + 8 ≤ size = ground arith in
                passed_at (r + 8) (p + 8) p next c (rw (not_unit, integer, fine) at h) e
                  (omega arith) room
          ]
          | inr not_integer ↦ elim (Bool-cases (kind == 3)) [
            | inl boolean ↦ elim (Bool-cases (leb size p || ltb 1 (byte_at payload p))) [
              | inl bad ↦ absurd (let no = rw (not_unit, not_integer, boolean, bad) at h in cc)
              | inr fine ↦
                  let room : p + 1 ≤ size = ground arith in
                  passed_at (r + 8) (p + 1) p next c
                    (rw (not_unit, not_integer, boolean, fine) at h) e (omega arith) room
            ]
            | inr not_boolean ↦ elim (Bool-cases (kind == 4 || kind == 5)) [
              | inl text ↦
                  text-Fits r p next kind (read_u32 image (r + 4)) c e
                    (rw (not_unit, not_integer, not_boolean, text) at h)
              | inr not_text ↦
                  let not_record : (kind == 6) ≡ false = ground arith in
                  let not_list : (kind == 7) ≡ false = ground arith in
                  let not_variant : (kind == 8) ≡ false = ground arith in
                  absurd (
                    let no =
                      rw
                        (
                          not_unit, not_integer, not_boolean, not_text, not_record, not_list,
                          not_variant,
                        )
                        at h in
                    cc)
            ]
          ]
        ]
      ]

  -- A list after its count.
  abbrev items_after : ℕ → ℕ → ℕ → Checked
  items_after r p count = as_value (skip (r + 8)) >>= λ child_end.
      check_items child count (r + 8) child_end (p + 8) >>= λ p'. pass (at child_end p')

  list-Fits :
      (r p next bound : ℕ) (c : Cursors)
      → skip (r + 8) ≡ pass next
      → (payload_head payload size p >>= λ count.
          refuse (ltb bound count) invalid_value >> items_after r p count)
        ≡ pass c
      → (c.representation ≡ next) × (p ≤ c.payload) × (c.payload ≤ size)
  list-Fits r p next bound c s h =
      let (count, head, rest) =
        bind-pass (payload_head payload size p)
          (λ n. refuse (ltb bound n) invalid_value >> items_after r p n) c h in
      let room = payload_head-room payload size p count head in
      let (_, items) = guard-pass (ltb bound count) invalid_value (items_after r p count) c rest in
      let (p', checked, same) =
        bind-pass (check_items child count (r + 8) next (p + 8)) (λ q. pass (at next q)) c
          (rw s at items) in
      let (low, high) =
        check_items-Fits child skip size fits count (r + 8) next (p + 8) p' s room checked in
      passed_at next p' p next c same refl (omega (arith, low)) high

  variant-Fits :
      (r p next children : ℕ) (c : Cursors)
      → skip_children skip children (r + 8) ≡ pass next
      → (payload_head payload size p >>= λ tag.
          refuse (leb children tag) invalid_value
          >> check_cases child skip children 0 tag (at (r + 8) (p + 8)))
        ≡ pass c
      → (c.representation ≡ next) × (p ≤ c.payload) × (c.payload ≤ size)
  variant-Fits r p next children c s h =
      let (tag, head, rest) =
        bind-pass (payload_head payload size p)
          (λ t.
            refuse (leb children t) invalid_value
            >> check_cases child skip children 0 t (at (r + 8) (p + 8)))
          c h in
      let room = payload_head-room payload size p tag head in
      let (_, cases) =
        guard-pass (leb children tag) invalid_value
          (check_cases child skip children 0 tag (at (r + 8) (p + 8))) c rest in
      let (e, low, high) =
        check_cases-Fits child skip size fits children 0 tag (at (r + 8) (p + 8)) c next s room
          cases in
      (e, omega (arith, low), high)

  one_skipped : (r next : ℕ) → skip_children skip 1 r ≡ pass next → skip r ≡ pass next
  unfolding skip_children
  one_skipped r next h =
      let (n, first, rest) = bind-pass (skip r) (λ x. pass x) next h in
      let same : n ≡ next = cc in first ∙ ap pass same

  check_kind-Fits :
      (r p next : ℕ) (c : Cursors)
      → representation_valid image r ≡ true
      → skip_children skip (read_u16 image (r + 2)) (r + 8) ≡ pass next
      → p ≤ size
      → check_kind image end payload size child skip r p ≡ pass c
      → (c.representation ≡ next) × (p ≤ c.payload) × (c.payload ≤ size)
  unfolding check_kind
  check_kind-Fits r p next c valid s inside h =
      let kind = byte_at image r in
      elim (Bool-cases (leb kind 5)) [
        | inl low ↦ scalar-Fits r p next c valid (leb→le kind 5 low) s inside h
        | inr high ↦
            let not_unit : (kind == 1) ≡ false = ground arith in
            let not_integer : (kind == 2) ≡ false = ground arith in
            let not_boolean : (kind == 3) ≡ false = ground arith in
            let not_string : (kind == 4) ≡ false = ground arith in
            let not_bytes : (kind == 5) ≡ false = ground arith in
            let opened = rw (not_unit, not_integer, not_boolean, not_string, not_bytes) at h in
            elim (Bool-cases (kind == 6)) [
              | inl fields ↦
                  check_fields-Fits child skip size fits (read_u16 image (r + 2)) (at (r + 8) p) c
                    next s inside (rw fields at opened)
              | inr not_record ↦ elim (Bool-cases (kind == 7)) [
                | inl list ↦
                    let one = one_child image r valid (==→eq kind 7 list) in
                    list-Fits r p next (read_u32 image (r + 4)) c
                      (one_skipped (r + 8) next (rw one at s)) (rw (not_record, list) at opened)
                | inr not_list ↦ elim (Bool-cases (kind == 8)) [
                  | inl variant ↦
                      variant-Fits r p next (read_u16 image (r + 2)) c s
                        (rw (not_record, not_list, variant) at opened)
                  | inr unknown ↦
                      absurd (let no = rw (not_record, not_list, unknown) at opened in cc)
                ]
              ]
            ]
      ]

-- `validate_value_inner` and `validate_representation` at any one depth: where the representation
-- is valid and the value is accepted, the value's cursor on the representation ends where the
-- representation does, and the cursor on the payload has not gone back and is inside the payload.
-- The test of a list for an item that ends elsewhere can only fail on a bad representation.
pub check_levels-Fits :
    (levels : ℕ) (image : List ℕ) (end : ℕ) (payload : List ℕ) (size r p next : ℕ) (c : Cursors)
    → skip_levels levels image end r ≡ pass next
    → p ≤ size
    → check_levels image end payload size levels r p ≡ pass c
    → (c.representation ≡ next) × (p ≤ c.payload) × (c.payload ≤ size)
unfolding skip_levels check_levels
check_levels-Fits zero image end payload size r p next c s inside h = absurd cc
check_levels-Fits (suc levels) image end payload size r p next c s inside h =
    let (_, s') =
      guard-pass (ltb end r || ltb (end - r) 8) invalid_record
        (refuse (not (representation_valid image r)) invalid_record
          >> skip_children (skip_levels levels image end) (read_u16 image (r + 2)) (r + 8))
        next s in
    let (valid, s'') =
      guard-pass (not (representation_valid image r)) invalid_record
        (skip_children (skip_levels levels image end) (read_u16 image (r + 2)) (r + 8)) next s' in
    let (_, h') =
      guard-pass (ltb end r || ltb (end - r) 8) invalid_value
        (check_kind image end payload size (check_levels image end payload size levels)
          (skip_levels levels image end) r p)
        c h in
    check_kind-Fits image end payload size (check_levels image end payload size levels)
      (skip_levels levels image end)
      (λ r' p' next' c' u v w. check_levels-Fits levels image end payload size r' p' next' c' u v w)
      r p next c (not-false (representation_valid image r) valid) s'' inside h'
