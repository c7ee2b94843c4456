-- ===== src/SagaLog/Writer.antt =====
-- `hermas_saga_log_writer_init` and `hermas_saga_log_writer_append` of src/saga_log.c.
use hermas.Base.{
  ℕ, ◌+◌, ◌-◌, ◌^◌, ◌<◌, ◌≡◌, ◌≢◌, refl, arith, true, not, ◌||◌, Option, none, some, List, [],
  append-nil, ◌∙◌, replicate, ◌==◌, if◌then◌else◌,
}
use hermas.SagaLog.{
  SagaLogResult, ok, invalid_argument, is_ok, SagaLogRecord, record_size, encode, validate,
}
use hermas.SagaLog.Layout.{record_bytes}
use hermas.SagaLog.RoundTrip.{encode-valid}

-- `write` is the callback over the memory behind `context`, `none` for a null pointer.
pub record Writer (C : Type 0) : Type 0 where
  pub write : Option (C → List ℕ → SagaLogResult × C)
  pub context : C
  pub next_sequence : ℕ

abbrev pub pointee : Option (List ℕ) → List ℕ
pointee none = []
pointee (some bytes) = bytes

is_ok→ok : (code : SagaLogResult) → is_ok code ≡ true → code ≡ ok
is_ok→ok ok e = refl
is_ok→ok _ e = cc

encode-fresh :
    (r : SagaLogRecord)
    → r.kind < 2 ^ 16
    → validate r ≡ ok
    → encode (some r) (some (replicate record_size 0)) record_size ≡ (ok, some (record_bytes r))
encode-fresh r typed valid =
    encode-valid r (replicate record_size 0) record_size typed valid (omega arith) (omega arith)
    ∙ rw (append-nil (record_bytes r)) refl

module _ {C : Type 0} where
  -- The result code, and `*writer` after the call.
  pub writer_init :
      Option (Writer C)
      → Option (C → List ℕ → SagaLogResult × C)
      → C
      → ℕ
      → SagaLogResult × Option (Writer C)
  writer_init none write context next_sequence = (invalid_argument, none)
  writer_init (some w) none context next_sequence = (invalid_argument, some w)
  writer_init (some w) (some write) context next_sequence =
      if next_sequence == 0 then (invalid_argument, some w) else (
        ok,
        some (record { write = some write; context = context; next_sequence = next_sequence }),
      )

  -- What follows the encoding of the record: the callback, then the next sequence number.
  abbrev hand_over :
      (C → List ℕ → SagaLogResult × C)
      → Writer C
      → SagaLogResult × Option (List ℕ)
      → SagaLogResult × Writer C
  hand_over write w (code, encoded) =
      let (written, context) = write w.context (pointee encoded) in
      if not (is_ok code)
      then (code, w)
      else if not (is_ok written)
      then (written, record w { context = context })
      else (ok, record w { context = context; next_sequence = w.next_sequence + 1 })

  -- The local buffer starts as zeros: `encode` writes each of its bytes.
  unfoldable pub append_with :
      Option (C → List ℕ → SagaLogResult × C) → Writer C → SagaLogRecord → SagaLogResult × Writer C
  append_with none w r = (invalid_argument, w)
  append_with (some write) w r =
      if w.next_sequence == 0 || w.next_sequence == 2 ^ 64 - 1
      then (invalid_argument, w)
      else hand_over write w (
          encode (some (record r { sequence = w.next_sequence })) (some (replicate record_size 0))
            record_size)

  unfoldable pub writer_append :
      Option (Writer C) → SagaLogRecord → SagaLogResult × Option (Writer C)
  unfolding append_with
  writer_append none r = (invalid_argument, none)
  writer_append (some w) r = let (code, w') = append_with w.write w r in (code, some w')

  -- With a callback in place and a next sequence number other than 0 and 2^64 - 1, appending a
  -- record that is valid under that number exactly the bytes of the record
  -- with that number, once; the result is the callback's, and the number goes up by one if that is
  -- success, and else stays.
  writer_append-saga :
      (w : Writer C) (r : SagaLogRecord) (write : C → List ℕ → SagaLogResult × C)
      → w.write ≡ some write
      → w.next_sequence ≢ 0
      → w.next_sequence < 2 ^ 64 - 1
      → r.kind < 2 ^ 16
      → validate (record r { sequence = w.next_sequence }) ≡ ok
      → writer_append (some w) r ≡ (
          let (written, context) =
            write w.context (record_bytes (record r { sequence = w.next_sequence })) in
          (
            written,
            some (record w {
              context = context;
              next_sequence = if is_ok written then w.next_sequence + 1 else w.next_sequence;
            }),
          ))
  unfolding writer_append
  writer_append-saga w r write has start room typed valid = ground (
    arith,
    encode-fresh (record r { sequence = w.next_sequence }) typed valid,
    is_ok→ok (write w.context (record_bytes (record r { sequence = w.next_sequence }))).0,
  )
