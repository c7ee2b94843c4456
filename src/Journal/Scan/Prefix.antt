-- ===== src/Journal/Scan/Prefix.antt =====
-- The arrays of `scan_execution` in src/journal.c, of which a prefix is in use: what the updates make
-- of the list of that prefix.
use hermas.Base.{
  ℕ, zero, suc, ◌+◌, ◌-◌, ◌<◌, ◌≤◌, ◌≡◌, refl, ap, arith, length-set, List, [], ◌∷◌, ◌++◌, get_or,
  set, take, length, ◌∙◌,
}
use hermas.Journal.Scan.Transition.{shift_down}

module _ {ℓ} {A : Type ℓ} where
  -- A list without the entry at an index.
  abbrev pub remove : ℕ → List A → List A
  remove i [] = []
  remove zero (x ∷ xs) = xs
  remove (suc i) (x ∷ xs) = x ∷ remove i xs

  pub take-set : (n i : ℕ) (xs : List A) (v : A) → take n (set xs i v) ≡ set (take n xs) i v
  take-set zero i xs v = refl
  take-set (suc n) i [] v = refl
  take-set (suc n) zero (x ∷ xs) v = refl
  take-set (suc n) (suc i) (x ∷ xs) v = ap (λ (t : List A). x ∷ t) (take-set n i xs v)

  pub take_push :
      (n : ℕ) (xs : List A) (v : A)
      → n < length xs
      → take (suc n) (set xs n v) ≡ take n xs ++ (v ∷ [])
  take_push n [] v h = absurd (omega arith)
  take_push zero (x ∷ xs) v h = refl
  take_push (suc n) (x ∷ xs) v h = ap (λ (t : List A). x ∷ t) (take_push n xs v (omega arith))

  pub get_or_prefix :
      (n i : ℕ) (xs : List A) (d : A) → i < n → get_or (take n xs) i d ≡ get_or xs i d
  get_or_prefix zero i xs d h = absurd (omega arith)
  get_or_prefix (suc n) i [] d h = refl
  get_or_prefix (suc n) zero (x ∷ xs) d h = refl
  get_or_prefix (suc n) (suc i) (x ∷ xs) d h = get_or_prefix n i xs d (omega arith)

  pub length-prefix : (n : ℕ) (xs : List A) → n ≤ length xs → length (take n xs) ≡ n
  length-prefix zero xs h = refl
  length-prefix (suc n) [] h = absurd (omega arith)
  length-prefix (suc n) (x ∷ xs) h = ap suc (length-prefix n xs (omega arith))

  module _ (d : A) where
    shift_later :
        (x : A) (xs : List A) (i n : ℕ) → shift_down d (x ∷ xs) (suc i) n ≡ x ∷ shift_down d xs i n
    unfolding shift_down
    shift_later x xs i zero = refl
    shift_later x xs i (suc n) =
        let next : suc i + 1 ≡ suc (i + 1) = omega arith in
        rw next (shift_later x (set xs i (get_or xs (i + 1) d)) (i + 1) n)

    shift_first :
        (n : ℕ) (xs : List A)
        → n < length xs
        → take n (shift_down d xs 0 n) ≡ remove 0 (take (suc n) xs)
    unfolding shift_down
    shift_first zero [] h = refl
    shift_first zero (x ∷ xs) h = refl
    shift_first (suc n) [] h = absurd (omega arith)
    shift_first (suc n) (x ∷ []) h = absurd (omega arith)
    shift_first (suc n) (x ∷ y ∷ zs) h =
        let rest = shift_first n (y ∷ zs) (omega arith) in
        rw (shift_later y (y ∷ zs) 0 n) (ap (λ (t : List A). y ∷ t) rest)

    shift-remove :
        (i n : ℕ) (xs : List A)
        → i + n < length xs
        → take (i + n) (shift_down d xs i n) ≡ remove i (take (suc (i + n)) xs)
    shift-remove zero n xs h =
        let same : 0 + n ≡ n = omega arith in rw same (shift_first n xs (omega arith))
    shift-remove (suc i) n [] h = absurd (omega arith)
    shift-remove (suc i) n (x ∷ xs) h =
        let same : suc i + n ≡ suc (i + n) = omega arith in
        rw (same, shift_later x xs i n)
          (ap (λ (t : List A). x ∷ t) (shift-remove i n xs (omega arith)))

    -- The shift over an entry of a prefix of `c + 1` entries.
    pub take_shift :
        (i c : ℕ) (xs : List A)
        → i ≤ c
        → c < length xs
        → take c (shift_down d xs i (c - i)) ≡ remove i (take (suc c) xs)
    take_shift i c xs h k =
        let whole : i + (c - i) ≡ c = omega arith in
        rw whole at (shift-remove i (c - i) xs (omega arith))

    pub length-shift : (n i : ℕ) (xs : List A) → length (shift_down d xs i n) ≡ length xs
    unfolding shift_down
    length-shift zero i xs = refl
    length-shift (suc n) i xs =
        length-shift n (i + 1) (set xs i (get_or xs (i + 1) d))
        ∙ length-set xs i (get_or xs (i + 1) d)
