-- ===== src/Image/Runs.antt =====
-- Runs of the value checks and the lookups of src/image.c on a small image.
use hermas.Base.{
  ℕ, ◌+◌, ◌≤◌, ◌≡◌, refl, arith, Bool, true, false, some, List, [], ◌∷◌, ◌++◌, length, replicate,
  All,
}
use hermas.Base.Check.{pass}
use hermas.Bytes.{read_u16, read_u32}
use hermas.Image as Image
use hermas.Image.{ImageResult}
use hermas.Image.Utf8.{valid_utf8}
use hermas.Image.Utf8.Scalars.{IsScalar}
use hermas.Image.Utf8.Exact.{encode_all, valid_utf8-encode_all}
use hermas.Bytes.{IsByte}
use hermas.Image.Value.{at, skip_levels, check_levels, validate_value, validate_value_inner}
use hermas.Image.Value.Skips.{check_levels-Fits}
use hermas.Image.Items.{Item, list_items, descriptor_of}
use hermas.Image.Items.Tiles.{Tiles, list_items-Tiles}
use hermas.Image.Lookup.{
  node_feature, features, describe_type, action_fingerprint, find_action_contract,
}

abbrev u16 : ℕ → List ℕ
u16 n = n ∷ 0 ∷ []

abbrev u32 : ℕ → List ℕ
u32 n = n ∷ 0 ∷ 0 ∷ 0 ∷ []

-- The kind, the children and the bound of a representation.
abbrev representation : ℕ → ℕ → ℕ → List ℕ
representation kind children bound = kind ∷ 0 ∷ u16 children ++ u32 bound

-- A header, one type, 3, and its representation: a list of at most 4 strings of at most 5 bytes.
-- An Action stands in one node, with an edge in and one out for each outcome.
abbrev image : List ℕ
image =
    replicate 28 0
    ++ u16 1
    ++ u16 1
    ++ u16 3
    ++ u16 1
    ++ replicate 4 0
    ++ u32 104
    ++ u32 80
    ++ u32 140
    ++ u32 148
    ++ replicate 4 0
    ++ u32 104
    ++ replicate 4 0
    ++ u16 0
    ++ replicate 10 0
    ++ (3 ∷ 0 ∷ 0 ∷ 0 ∷ [])
    ++ u32 88
    ++ representation 7 1 4
    ++ representation 4 0 5
    ++ u16 11
    ++ u16 21
    ++ replicate 32 6
    ++ (1 ∷ 0 ∷ 21 ∷ 0 ∷ 11 ∷ 0 ∷ 0 ∷ 0 ∷ [])
    ++ (0 ∷ 1 ∷ 0 ∷ 0 ∷ 0 ∷ 0 ∷ 1 ∷ 0 ∷ 3 ∷ 0 ∷ 4 ∷ 0 ∷ replicate 4 0)
    ++ (1 ∷ 2 ∷ 0 ∷ 0 ∷ 1 ∷ 0 ∷ 0 ∷ 0 ∷ 5 ∷ 0 ∷ 5 ∷ 0 ∷ replicate 4 0)
    ++ (2 ∷ 2 ∷ 0 ∷ 0 ∷ 1 ∷ 0 ∷ 0 ∷ 0 ∷ 6 ∷ 0 ∷ 6 ∷ 0 ∷ replicate 4 0)

-- A string after its length.
abbrev text : List ℕ → List ℕ
text bytes = u32 (length bytes) ++ u32 0 ++ bytes

-- Two strings: "hi" and a single "é".
abbrev payload : List ℕ
payload = u32 2 ++ u32 0 ++ text (104 ∷ 105 ∷ []) ++ text (195 ∷ 169 ∷ [])

abbrev all_valid : List ℕ → ℕ → Bool
all_valid bytes size = true

value_run : validate_value all_valid image 196 3 (some payload) 28 ≡ Image.ok
unfolding validate_value read_u16 read_u32 valid_utf8
value_run = refl

short_value_run : validate_value all_valid image 196 3 (some payload) 27 ≡ Image.invalid_value
unfolding validate_value read_u16 read_u32 valid_utf8
short_value_run = refl

overlong_run : valid_utf8 (192 ∷ 175 ∷ []) ≡ false
unfolding valid_utf8
overlong_run = refl

surrogate_run : valid_utf8 (237 ∷ 160 ∷ 128 ∷ []) ≡ false
unfolding valid_utf8
surrogate_run = refl

abbrev items : List Item
items = record { offset = 8; length = 10 } ∷ record { offset = 18; length = 10 } ∷ []

list_items_run : list_items all_valid (some image) 196 3 (some payload) 28 256 ≡ pass items
unfolding list_items read_u16 read_u32 valid_utf8
list_items_run = refl

features_run : features (λ bytes size. Image.ok) image 196 true ≡ pass 1
unfolding features read_u16 read_u32 node_feature
features_run = refl

describe_run : describe_type (λ bytes size. Image.ok) image 196 3 true ≡ pass (7, 4)
unfolding describe_type descriptor_of read_u16 read_u32
describe_run = refl

contract_run :
    find_action_contract (λ bytes size. Image.ok) image 196 (replicate 32 6) true
    ≡ pass (record {
      app_id = 11;
      action_id = 21;
      input_type = 4;
      success_type = 5;
      error_type = 6;
      fingerprint = replicate 32 6;
    })
unfolding find_action_contract read_u16 read_u32
contract_run = refl

fingerprint_run :
    action_fingerprint (λ bytes size. Image.ok) image 196 11 21 true ≡ pass (replicate 32 6)
unfolding action_fingerprint read_u16 read_u32
fingerprint_run = refl

list_items-Tiles_example :
    (descriptor end : ℕ) × (descriptor_of image 3 ≡ some (descriptor, end))
    × Tiles (λ p. validate_value_inner image end payload 28 (descriptor + 8) p 1) 8 28 items
    × (length items ≡ read_u32 payload 0)
list_items-Tiles_example =
    list_items-Tiles all_valid image 196 3 payload 28 256 items list_items_run

skip_run : skip_levels 65 image 104 88 ≡ pass 104
unfolding skip_levels read_u16 read_u32
skip_run = refl

check_run : check_levels image 104 payload 28 65 88 0 ≡ pass (at 104 28)
unfolding check_levels read_u16 read_u32 valid_utf8
check_run = refl

check_levels-Fits_example : ((at 104 28).representation ≡ 104) × (0 ≤ 28) × (28 ≤ 28)
check_levels-Fits_example =
    check_levels-Fits 65 image 104 payload 28 88 0 104 (at 104 28) skip_run (omega arith) check_run

-- "A€" and a musical symbol of four bytes.
abbrev utf8_text : List ℕ
utf8_text = 65 ∷ 226 ∷ 130 ∷ 172 ∷ 240 ∷ 157 ∷ 132 ∷ 158 ∷ []

text_bytes : All IsByte utf8_text
text_bytes = (
  omega arith,
  (
    omega arith,
    (omega arith, (omega arith, (omega arith, (omega arith, (omega arith, (omega arith, tt)))))),
  ),
)

text_run : encode_all (65 ∷ 8364 ∷ 119070 ∷ []) ≡ utf8_text
unfolding encode_all
text_run = refl

valid_utf8-encode_all_example :
    ((valid_utf8 utf8_text ≡ true) → (cs : List ℕ) × All IsScalar cs × (utf8_text ≡ encode_all cs))
    × ((cs : List ℕ) → All IsScalar cs → utf8_text ≡ encode_all cs → valid_utf8 utf8_text ≡ true)
valid_utf8-encode_all_example = valid_utf8-encode_all utf8_text text_bytes
