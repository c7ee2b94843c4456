-- ===== src/Crc/Parts.antt =====
-- The two-part checksum of src/result.c and src/compensation.c.
use hermas.Base.{
  ℕ, ◌≤◌, ◌<◌, ◌^◌, ◌≡◌, arith, List, ◌++◌, length, take, take-append, take-length, sym, ◌∙◌, ap,
  length-take,
}
use hermas.Crc.{checksum_parts}

pub checksum_parts-take :
    (n m : ℕ) (header header' value value' : List ℕ)
    → take n header ≡ take n header'
    → take m value ≡ take m value'
    → checksum_parts n header value m ≡ checksum_parts n header' value' m
unfolding checksum_parts
checksum_parts-take n m header header' value value' h v = rw (h, v)

-- A value of known length, with or without what follows it.
pub take_value :
    (m : ℕ) (value rest : List ℕ)
    → m ≤ length value
    → take m (take m value ++ rest) ≡ take m (take m value)
take_value m value rest h =
    let n = length-take m value h in
    ap (λ (t : ℕ). take t (take m value ++ rest)) (sym n)
    ∙ take-append (take m value) rest
    ∙ sym (take-length (take m value))
    ∙ ap (λ (t : ℕ). take t (take m value)) n

pub checksum_parts-lt : (n m : ℕ) (header value : List ℕ) → checksum_parts n header value m < 2 ^ 32
unfolding checksum_parts
checksum_parts-lt n m header value = omega arith
