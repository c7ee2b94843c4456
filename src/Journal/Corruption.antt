-- ===== src/Journal/Corruption.antt =====
-- Records of the journal with one byte changed.
use hermas.Base.{
  ℕ, ◌≤◌, ◌<◌, ◌≡◌, ◌≢◌, ◌⊎◌, inl, inr, sym, ◌∙◌, arith, List, some, All, All-set, length, set,
}
use hermas.Bytes.{IsByte, byte_at, read_u32}
use hermas.Bytes.Words.{read_le, read_u32-read_le}
use hermas.Bytes.Writes.{read_le-set_inside, read_le-set_outside}
use hermas.Crc.{checksum}
use hermas.Crc.Detect.{checksum-set, checksum-set_behind}
use hermas.Journal.{JournalRecord, ok, record_size, decode}
use hermas.Journal.Decode.{decode-Decoded, decode_ok-Decoded}

module _ (source : List ℕ) (i c : ℕ) (bytes : All IsByte source) (new : IsByte c)
    (inside : i < length source) (changed : c ≢ byte_at source i)
    (intact : read_u32 source 60 ≡ checksum source 60)
    (still : read_u32 (set source i c) 60 ≡ checksum (set source i c) 60) where
  word_before : read_le 4 source 60 ≡ checksum source 60
  word_before = sym (read_u32-read_le source 60 bytes) ∙ intact

  word_after : read_le 4 (set source i c) 60 ≡ checksum (set source i c) 60
  word_after =
      sym (read_u32-read_le (set source i c) 60 (All-set IsByte source i c new bytes)) ∙ still

  body_damage : i < 60 → ⊥
  body_damage h =
      checksum-set source 60 i c bytes new h inside changed
        (sym word_after ∙ read_le-set_outside 4 source 60 i c h ∙ word_before)

  checksum_damage : 60 ≤ i → i < 64 → ⊥
  checksum_damage lo hi = changed (
      read_le-set_inside 4 source 60 i c bytes new lo hi inside
        (word_after ∙ checksum-set_behind source 60 i c lo ∙ sym word_before))

-- When `hermas_journal_decode` accepts bytes, it refuses them after any one of the 64 bytes of the
-- record, those of the checksum included, was replaced by another byte.
pub damaged_record_refused :
    (source : List ℕ) (size i c : ℕ) (r old : JournalRecord)
    → decode (some source) size (some old) ≡ (ok, some r)
    → All IsByte source
    → size ≤ length source
    → IsByte c
    → i < record_size
    → c ≢ byte_at source i
    → (decode (some (set source i c)) size (some old)).0 ≢ ok
damaged_record_refused source size i c r old e bytes fits new hi changed again =
    let before = decode-Decoded source size r old e in
    let after = decode_ok-Decoded (set source i c) size old again in
    let inside : i < length source = omega (arith, before.long_enough) in
    elim (split i) [
      | inl body ↦
          body_damage source i c bytes new inside changed before.checksum_ok after.checksum_ok body
      | inr sum ↦
          checksum_damage source i c bytes new inside changed before.checksum_ok after.checksum_ok
            sum hi
    ]
  where
    split : (n : ℕ) → (n < 60) ⊎ (60 ≤ n)
    split n = omega arith
