-- ===== src/Execution/Cases.antt =====
-- The cases of a dispatch of src/runtime.c: what `find_case_edge` finds and `strip_tag` leaves, as
-- the image and the value have it.
use hermas.Base.{
  ℕ, zero, suc, ◌+◌, ◌*◌, ◌-◌, ◌<◌, ◌≤◌, ◌≡◌, ◌⊎◌, ◌∙◌, refl, ap, arith, inl, inr, Bool, true,
  false, ◌&&◌, none, some, List, [], ◌∷◌, get_or, length, take, drop, overwrite, ◌==◌, Bool-cases,
}
use hermas.Bytes.{byte_at, read_u16, read_u32}
use hermas.Protocol.{pointee}
use hermas.Execution.{Execution, strip_tag, first_edge, find_case_edge, edge_matches}

-- Where edge `j` of the table is.
abbrev pub nth_edge : List ℕ → ℕ → ℕ
nth_edge image j = read_u32 image 52 + j * 16

-- Edge `j` is a case of the node, for the tag.
abbrev pub IsCase : List ℕ → ℕ → ℕ → ℕ → Type 0
IsCase image node tag j =
    (byte_at image (nth_edge image j) ≡ 5)
    × (read_u16 image (nth_edge image j + 4) ≡ node)
    × (byte_at image (nth_edge image j + 3) ≡ tag)

-- The value starts with a tag on 4 bytes and 4 zero bytes.
abbrev pub HasTag : Execution → ℕ → Type 0
HasTag e tag =
    (8 ≤ e.value_length)
    × (read_u32 (pointee e.value_buffer) 4 ≡ 0)
    × (read_u32 (pointee e.value_buffer) 0 ≡ tag)
    × (tag ≤ 255)

-- Only the value differs: it has lost its first 8 bytes.
abbrev pub Stripped : Execution → Execution → Type 0
Stripped e e' =
    (e' ≡ record e { value_length = e.value_length - 8; value_buffer = e'.value_buffer })
    × ((i : ℕ)
        → i + 8 < e.value_length
        → i + 8 < length (pointee e.value_buffer)
        → get_or (pointee e'.value_buffer) i 0 ≡ get_or (pointee e.value_buffer) (i + 8) 0)

get_or-overwrite :
    (xs ys : List ℕ) (i : ℕ)
    → i < length xs
    → i < length ys
    → get_or (overwrite xs 0 ys) i 0 ≡ get_or ys i 0
get_or-overwrite [] ys i h k = absurd (omega arith)
get_or-overwrite (x ∷ xs) [] i h k = absurd (omega arith)
get_or-overwrite (x ∷ xs) (y ∷ ys) zero h k = refl
get_or-overwrite (x ∷ xs) (y ∷ ys) (suc i) h k =
    get_or-overwrite xs ys i (omega arith) (omega arith)

get_or-take : (n : ℕ) (xs : List ℕ) (i : ℕ) → i < n → get_or (take n xs) i 0 ≡ get_or xs i 0
get_or-take zero xs i h = absurd (omega arith)
get_or-take (suc n) [] i h = refl
get_or-take (suc n) (x ∷ xs) zero h = refl
get_or-take (suc n) (x ∷ xs) (suc i) h = get_or-take n xs i (omega arith)

length-take_inside : (n : ℕ) (xs : List ℕ) (i : ℕ) → i < n → i < length xs → i < length (take n xs)
length-take_inside zero xs i h k = absurd (omega arith)
length-take_inside (suc n) [] i h k = absurd (omega arith)
length-take_inside (suc n) (x ∷ xs) zero h k = omega arith
length-take_inside (suc n) (x ∷ xs) (suc i) h k =
    let rest = length-take_inside n xs i (omega arith) (omega arith) in omega (arith, rest)

get_or-drop : (n : ℕ) (xs : List ℕ) (i : ℕ) → get_or (drop n xs) i 0 ≡ get_or xs (i + n) 0
get_or-drop zero xs i = ap (λ (k : ℕ). get_or xs k 0) (let same : i ≡ i + 0 = omega arith in same)
get_or-drop (suc n) [] i = refl
get_or-drop (suc n) (x ∷ xs) i =
    let next : i + suc n ≡ suc (i + n) = omega arith in rw next (get_or-drop n xs i)

length-drop_inside : (n : ℕ) (xs : List ℕ) (i : ℕ) → i + n < length xs → i < length (drop n xs)
length-drop_inside zero xs i h = omega (arith, h)
length-drop_inside (suc n) [] i h = absurd (omega arith)
length-drop_inside (suc n) (x ∷ xs) i h = length-drop_inside n xs i (omega arith)

shifted :
    (bytes : List ℕ) (n i : ℕ)
    → i < n
    → i + 8 < length bytes
    → get_or (overwrite bytes 0 (take n (drop 8 bytes))) i 0 ≡ get_or bytes (i + 8) 0
shifted bytes n i low inside =
    let dropped = length-drop_inside 8 bytes i (omega arith) in
    get_or-overwrite bytes (take n (drop 8 bytes)) i (omega arith)
      (length-take_inside n (drop 8 bytes) i low dropped)
    ∙ get_or-take n (drop 8 bytes) i low
    ∙ get_or-drop 8 bytes i

pub strip_tag-Stripped : (e : Execution) → Stripped e (strip_tag e)
unfolding strip_tag
strip_tag-Stripped e = (
  refl,
  λ i low inside. elim (Bool-cases (e.value_length - 8 == 0)) [
    | inl nothing ↦ absurd (ground (arith, nothing, low))
    | inr more ↦
        rw more
          (shifted (pointee e.value_buffer) (e.value_length - 8) i (omega (arith, low)) inside)
  ],
)

-- A test that fails at an offset and at the offsets that follow fails at all of them.
past :
    (test : ℕ → Bool) (offset n k : ℕ)
    → test offset ≡ false
    → ((i : ℕ) → i < n → test (offset + 16 + i * 16) ≡ false)
    → k < n + 1
    → test (offset + k * 16) ≡ false
past test offset n zero miss after low =
    let here : offset + 0 * 16 ≡ offset = omega arith in rw here miss
past test offset n (suc k) miss after low =
    let there : offset + suc k * 16 ≡ offset + 16 + k * 16 = omega arith in
    rw there (after k (omega arith))

-- The search for an edge finds the first record that passes, or none passes.
first_edge-first :
    (test : ℕ → Bool) (rounds offset : ℕ)
    → ((first_edge test rounds offset ≡ none)
        × ((k : ℕ) → k < rounds → test (offset + k * 16) ≡ false))
      ⊎ ((j : ℕ) × (j < rounds)
          × (first_edge test rounds offset ≡ some (offset + j * 16))
          × (test (offset + j * 16) ≡ true)
          × ((k : ℕ) → k < j → test (offset + k * 16) ≡ false))
unfolding first_edge
first_edge-first test zero offset = inl (refl, λ k low. absurd (omega arith))
first_edge-first test (suc rounds) offset = elim (Bool-cases (test offset)) [
  | inl hit ↦
      let here : offset + 0 * 16 ≡ offset = omega arith in
      inr (0, omega arith, rw (hit, here) refl, rw here hit, λ k low. absurd (omega arith))
  | inr miss ↦ elim (first_edge-first test rounds (offset + 16)) [
    | inl (absent, all) ↦
        inl (rw (miss, absent) refl, λ k low. past test offset rounds k miss all (omega arith))
    | inr (j, low, found, holds, before) ↦
        let there : offset + (j + 1) * 16 ≡ offset + 16 + j * 16 = omega arith in
        inr (
          j + 1,
          omega arith,
          rw (miss, found, there) refl,
          rw there holds,
          λ k below. past test offset j k miss before below,
        )
  ]
]

case_tests :
    (image : List ℕ) (node tag offset : ℕ)
    → (edge_matches image 5 node offset && byte_at image (offset + 3) == tag) ≡ true
    → (byte_at image offset ≡ 5)
      × (read_u16 image (offset + 4) ≡ node)
      × (byte_at image (offset + 3) ≡ tag)
case_tests image node tag offset h = (ground arith, ground arith, ground arith)

not-IsCase :
    (image : List ℕ) (node tag j : ℕ)
    → (edge_matches image 5 node (nth_edge image j) && byte_at image (nth_edge image j + 3) == tag)
      ≡ false
    → ¬ (IsCase image node tag j)
not-IsCase image node tag j h (kind, source, own) = ground (arith, h, kind, source, own)

-- The search for a case finds the first case of the node for the tag, or there is none.
pub find_case_edge-first :
    (image : List ℕ) (node tag : ℕ)
    → ((find_case_edge image node tag ≡ none)
        × ((k : ℕ) → k < read_u16 image 32 → ¬ (IsCase image node tag k)))
      ⊎ ((j : ℕ) × (j < read_u16 image 32)
          × (find_case_edge image node tag ≡ some (nth_edge image j))
          × IsCase image node tag j
          × ((k : ℕ) → k < j → ¬ (IsCase image node tag k)))
unfolding find_case_edge
find_case_edge-first image node tag =
    elim (first_edge-first
      (λ offset. edge_matches image 5 node offset && byte_at image (offset + 3) == tag)
      (read_u16 image 32) (read_u32 image 52)) [
        | inl (absent, all) ↦ inl (absent, λ k low. not-IsCase image node tag k (all k low))
        | inr (j, low, found, holds, before) ↦ inr (
          j,
          low,
          found,
          case_tests image node tag (nth_edge image j) holds,
          λ k below. not-IsCase image node tag k (before k below),
        )
      ]
