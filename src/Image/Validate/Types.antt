-- ===== src/Image/Validate/Types.antt =====
-- The types of an image that `hermas_image_validate` of src/image.c accepts, and their values.
use hermas.Base.{
  ℕ, zero, suc, ◌+◌, ◌*◌, ◌≤◌, ◌<◌, ◌≡◌, ◌⊎◌, refl, sym, ap, ◌∙◌, subst, inl, inr, arith, true,
  false, not, ◌||◌, Option, some, List, ◌==◌, ◌!=◌, if◌then◌else◌, Bool-cases,
}
use hermas.Base.Check.{Check, fail, pass, Check-cases, ◌>>◌, refuse}
use hermas.Base.Loops.{for_range, for_range-inv, any_range}
use hermas.Bytes.{read_u16, read_u32}
use hermas.Image.{ImageResult, invalid_record}
use hermas.Image.Value.{Cursors, validate_representation, validate_value_inner}
use hermas.Image.Value.Skips.{bind-pass, guard-pass, check_levels-Fits}
use hermas.Image.Items.{type_descriptor}
use hermas.Image.Tables.{Header, header_of, has_type, descriptor_in}
use hermas.Image.Records.{error_at, type_at, as_record, check_type, check_types}
use hermas.Image.Validate.{Graph, check_image}
use hermas.Image.Validate.Steps.{check_image-Accepted}

module _ (bytes : List ℕ) (h : Header) where
  abbrev start_of : ℕ → ℕ
  start_of k = read_u32 bytes (type_at bytes h k + 4)

  -- The representation of a type passes, and ends where that of the next type starts, or at the
  -- cursor for the last of the first `i` types.
  record Represented (i cursor k : ℕ) : Type 0 where
    last : ℕ
    passes : validate_representation bytes h.strings_offset (start_of k) 0 ≡ pass last
    inner : k + 1 < i → last ≡ start_of (k + 1)
    outer : k + 1 ≡ i → last ≡ cursor

  as_record-pass : (m : Check ImageResult ℕ) (c : ℕ) → as_record bytes h m ≡ pass c → m ≡ pass c
  as_record-pass (fail code) c e = absurd cc
  as_record-pass (pass x) c e = e

  check_type-start :
      (i cursor cursor' : ℕ)
      → check_type bytes h i cursor ≡ pass cursor'
      → (start_of i ≡ cursor)
        × (validate_representation bytes h.strings_offset cursor 0 ≡ pass cursor')
  unfolding check_type
  check_type-start i cursor cursor' e =
      let id = read_u16 bytes (type_at bytes h i) in
      let bad = id == 0 || read_u16 bytes (type_at bytes h i + 2) != 0 || start_of i != cursor in
      let seen = any_range (λ right. id == read_u16 bytes (type_at bytes h right)) i 0 in
      let rest = as_record bytes h (validate_representation bytes h.strings_offset cursor 0) in
      let (good, e1) =
        guard-pass bad invalid_record (refuse seen invalid_record >> rest) cursor' e in
      let (_, e2) = guard-pass seen invalid_record rest cursor' e1 in
      (
        ground (arith, good),
        as_record-pass (validate_representation bytes h.strings_offset cursor 0) cursor' e2,
      )

  Represented-check_type :
      (i cursor cursor' : ℕ)
      → ((k : ℕ) → k < i → Represented i cursor k)
      → check_type bytes h i cursor ≡ pass cursor'
      → (k : ℕ) → k < i + 1
      → Represented (i + 1) cursor' k
  Represented-check_type i cursor cursor' before e k low =
      let (start, passed) = check_type-start i cursor cursor' e in
      elim (Bool-cases (k == i)) [
        | inl same ↦
            let k≡i : k ≡ i = ground arith in
            record {
              last = cursor';
              passes = rw (k≡i, start) passed;
              inner = λ early. absurd (omega (arith, early, k≡i));
              outer = λ _. refl;
            }
        | inr other ↦
            let earlier : k < i = ground arith in
            let r = before k earlier in
            record {
              last = r.last;
              passes = r.passes;
              inner = λ early. elim (Bool-cases (k + 1 == i)) [
                | inl next ↦
                    let k'≡i : k + 1 ≡ i = ground arith in
                    r.outer k'≡i ∙ sym start ∙ ap start_of (sym k'≡i)
                | inr far ↦ r.inner (ground arith)
              ];
              outer = λ late. absurd (omega (arith, late, earlier));
            }
      ]

-- The type that the search finds.
type_descriptor-found :
    (bytes : List ℕ) (strings id rounds offset start end : ℕ)
    → type_descriptor bytes strings id rounds offset ≡ some (start, end)
    → (k : ℕ) × (k < rounds)
      × (start ≡ read_u32 bytes (offset + k * 8 + 4))
      × (k + 1 < rounds → end ≡ read_u32 bytes (offset + (k + 1) * 8 + 4))
      × (k + 1 ≡ rounds → end ≡ strings)
unfolding type_descriptor
type_descriptor-found bytes strings id zero offset start end e = absurd cc
type_descriptor-found bytes strings id (suc rounds) offset start end e =
    elim (Bool-cases (read_u16 bytes offset != id)) [
      | inl other ↦
          let (k, low, e1, inner, outer) =
            type_descriptor-found bytes strings id rounds (offset + 8) start end (rw other at e) in
          let here : offset + suc k * 8 + 4 ≡ offset + 8 + k * 8 + 4 = omega arith in
          let there : offset + (suc k + 1) * 8 + 4 ≡ offset + 8 + (k + 1) * 8 + 4 = omega arith in
          (
            suc k,
            omega arith,
            e1 ∙ ap (λ (o : ℕ). read_u32 bytes o) (sym here),
            λ early. inner (omega (arith, early)) ∙ ap (λ (o : ℕ). read_u32 bytes o) (sym there),
            λ late. outer (omega (arith, late)),
          )
      | inr this ↦
          let found : Path (Option (ℕ × ℕ))
              (some (
                read_u32 bytes (offset + 4),
                if rounds != 0 then read_u32 bytes (offset + 8 + 4) else strings,
              ))
              (some (start, end)) =
            rw this at e in
          let e1 : read_u32 bytes (offset + 4) ≡ start = cc in
          let e2 : (if rounds != 0 then read_u32 bytes (offset + 8 + 4) else strings) ≡ end = cc in
          let here : offset + 0 * 8 + 4 ≡ offset + 4 = omega arith in
          let there : offset + (0 + 1) * 8 + 4 ≡ offset + 8 + 4 = omega arith in
          (
            0,
            omega arith,
            sym e1 ∙ ap (λ (o : ℕ). read_u32 bytes o) (sym here),
            λ early.
                let more : (rounds != 0) ≡ true = ground (arith, early) in
                sym e2 ∙ rw (more, there) refl,
            λ late.
                let none_left : (rounds != 0) ≡ false = ground (arith, late) in
                sym e2 ∙ rw none_left refl,
          )
    ]

check_types-Represented :
    (bytes : List ℕ) (h : Header)
    → check_types bytes h ≡ pass tt
    → (k : ℕ) → k < h.type_count
    → Represented bytes h h.type_count h.strings_offset k
unfolding check_types
check_types-Represented bytes h e k low =
    let (cursor, looped, e1) =
      bind-pass (for_range (check_type bytes h) h.type_count 0 h.representations_offset) _ tt e in
    let bad =
      cursor != h.strings_offset
      || not (has_type bytes h h.input_type)
      || not (has_type bytes h h.success_type) in
    let (good, e2) =
      guard-pass bad invalid_record
        (for_range
          (λ index s. refuse (not (has_type bytes h (error_at bytes h index))) invalid_record)
          h.error_count 0 tt)
        tt e1 in
    let end : cursor ≡ h.strings_offset = ground (arith, good) in
    subst (λ (c : ℕ). Represented bytes h h.type_count c k) end
      (for_range-inv (λ (i c : ℕ). (k : ℕ) → k < i → Represented bytes h i c k) (check_type bytes h)
        h.type_count (λ i c c' _. Represented-check_type bytes h i c c') h.type_count 0
        h.representations_offset cursor (omega arith) (λ n early. absurd (omega (arith, early)))
        looped k low)

descriptor-valid :
    (bytes : List ℕ) (h : Header) (type_id start end : ℕ)
    → check_types bytes h ≡ pass tt
    → descriptor_in bytes h type_id ≡ some (start, end)
    → validate_representation bytes h.strings_offset start 0 ≡ pass end
descriptor-valid bytes h type_id start end e found =
    let (k, low, e1, inner, outer) =
      type_descriptor-found bytes h.strings_offset type_id h.type_count h.types_offset start end
        found in
    let r = check_types-Represented bytes h e k low in
    let same : r.last ≡ end = elim (Bool-cases (k + 1 == h.type_count)) [
      | inl is_last ↦
          let l : k + 1 ≡ h.type_count = ground (arith, is_last) in r.outer l ∙ sym (outer l)
      | inr more ↦
          let l : k + 1 < h.type_count = ground (arith, more, low) in r.inner l ∙ sym (inner l)
    ] in
    rw e1 (r.passes ∙ ap (λ (n : ℕ). pass n) same)

-- In an image that `hermas_image_validate` accepts, the representation of every type that
-- `type_descriptor` finds is valid, and starts and ends where `type_descriptor` says. On a payload of
-- any content, `validate_value_inner` for the type either fails, or leaves the cursor on the
-- representation where the type ends and the one on the payload inside the payload.
pub check_image-Represented :
    (bytes : List ℕ) (size : ℕ) (g : Graph) (type_id start end : ℕ) (payload : List ℕ)
    (payload_size : ℕ)
    → check_image bytes size ≡ pass g
    → descriptor_in bytes (header_of bytes) type_id ≡ some (start, end)
    → (validate_representation bytes (header_of bytes).strings_offset start 0 ≡ pass end)
      × (((code : ImageResult) × (validate_value_inner bytes
                (header_of bytes).strings_offset
                payload
                payload_size
                start
                0
                0
              ≡ fail code))
          ⊎ ((c : Cursors) × (validate_value_inner bytes
                  (header_of bytes).strings_offset
                  payload
                  payload_size
                  start
                  0
                  0
                ≡ pass c)
              × (c.representation ≡ end)
              × (c.payload ≤ payload_size)))
unfolding validate_value_inner validate_representation
check_image-Represented bytes size g type_id start end payload payload_size e found =
    let h = header_of bytes in
    let a = check_image-Accepted bytes size g e in
    let valid = descriptor-valid bytes h type_id start end a.types found in
    (
      valid,
      elim (Check-cases
          (validate_value_inner bytes h.strings_offset payload payload_size start 0 0)) [
            | inl (code, failed) ↦ inl (code, failed)
            | inr (c, accepted) ↦
                let (r, _, p) =
                  check_levels-Fits 65 bytes h.strings_offset payload payload_size start 0 end c
                    valid (omega arith) accepted in
                inr (c, accepted, r, p)
          ],
    )
