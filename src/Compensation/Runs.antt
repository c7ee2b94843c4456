-- ===== src/Compensation/Runs.antt =====
-- Concrete stores, and the theorems at concrete inputs.
use hermas.Base.{ℕ, ◌≡◌, refl, arith, List, [], ◌∷◌, ◌++◌, some, none, true, drop, replicate}
use hermas.Bytes.{read_u16, read_u32, read_u64, write_u16, write_u32, write_u64}
use hermas.Crc.{checksum_parts}
use hermas.Compensation.{
  CompensationRecord, CompensationKey, CompensationResult, ok, duplicate_token, key_equal,
  record_valid, write_header, write_token, write_record, encode_record, encode, decoded_record,
  header_refused, decode_record, decode,
}
use hermas.Compensation.Layout.{record_bytes, token_bytes}
use hermas.Compensation.RoundTrip.{decode-encode_token}
use hermas.Compensation.Scan.{Summary, scan_step, scan_loop, scan}
use hermas.Compensation.Find.{take_candidate, consider, find_loop, find}
use hermas.Compensation.Lookup.{Tokens, scan-Tokens}
use hermas.Compensation.Writer.{Writer, writer_init, append_with, hand_over, writer_append}

abbrev undo_key : CompensationKey
undo_key = record {
  execution_id = 5;
  workflow_id = 2;
  request_id = 9;
  node_id = 6;
  image_fingerprint = 77;
}

abbrev undo : CompensationRecord
undo = record {
  sequence = 1;
  key = undo_key;
  compensation_app_id = 7;
  compensation_action_id = 8;
  source_type = 3;
  destination_type = 4;
  token = some (b'h' ∷ b'i' ∷ []);
  token_length = 2;
}

abbrev undo_bytes : List ℕ
undo_bytes =
    72 ∷ 67 ∷ 84 ∷ 49 ∷ 1 ∷ 0 ∷ 72 ∷ 0 ∷ 74 ∷ 0 ∷ 0 ∷ 0 ∷ 2 ∷ 0 ∷ 0 ∷ 0 ∷ 1 ∷ 0 ∷ 0 ∷ 0 ∷ 0 ∷ 0 ∷ 0
    ∷ 0 ∷ 5 ∷ 0 ∷ 0 ∷ 0 ∷ 0 ∷ 0 ∷ 0 ∷ 0 ∷ 2 ∷ 0 ∷ 0 ∷ 0 ∷ 9 ∷ 0 ∷ 0 ∷ 0 ∷ 0 ∷ 0 ∷ 0 ∷ 0 ∷ 6 ∷ 0 ∷ 7
    ∷ 0 ∷ 8 ∷ 0 ∷ 3 ∷ 0 ∷ 4 ∷ 0 ∷ 0 ∷ 0 ∷ 77 ∷ 0 ∷ 0 ∷ 0 ∷ 0 ∷ 0 ∷ 0 ∷ 0 ∷ 0 ∷ 0 ∷ 0 ∷ 0 ∷ 110 ∷ 98
    ∷ 212 ∷ 243 ∷ 104 ∷ 105 ∷ []

abbrev again_bytes : List ℕ
again_bytes =
    72 ∷ 67 ∷ 84 ∷ 49 ∷ 1 ∷ 0 ∷ 72 ∷ 0 ∷ 72 ∷ 0 ∷ 0 ∷ 0 ∷ 0 ∷ 0 ∷ 0 ∷ 0 ∷ 2 ∷ 0 ∷ 0 ∷ 0 ∷ 0 ∷ 0 ∷ 0
    ∷ 0 ∷ 5 ∷ 0 ∷ 0 ∷ 0 ∷ 0 ∷ 0 ∷ 0 ∷ 0 ∷ 2 ∷ 0 ∷ 0 ∷ 0 ∷ 9 ∷ 0 ∷ 0 ∷ 0 ∷ 0 ∷ 0 ∷ 0 ∷ 0 ∷ 6 ∷ 0 ∷ 7
    ∷ 0 ∷ 8 ∷ 0 ∷ 3 ∷ 0 ∷ 4 ∷ 0 ∷ 0 ∷ 0 ∷ 77 ∷ 0 ∷ 0 ∷ 0 ∷ 0 ∷ 0 ∷ 0 ∷ 0 ∷ 0 ∷ 0 ∷ 0 ∷ 0 ∷ 244 ∷ 202
    ∷ 136 ∷ 100 ∷ []

abbrev store : List ℕ
store = undo_bytes ++ again_bytes

abbrev buffer : List ℕ
buffer = replicate 78 9

undo-valid : record_valid undo ≡ true
unfolding record_valid
undo-valid = refl

encode-undo :
    encode (some undo) (some buffer) 78 (some 0) ≡ (ok, some (undo_bytes ++ replicate 4 9), some 74)
unfolding encode encode_record record_valid write_record write_header write_token write_u16
    write_u32 write_u64 checksum_parts
encode-undo = refl

decode-encode_token_example :
    ((encode (some undo) (some buffer) 78 (some 0)).0 ≡ ok)
    × ((encode (some undo) (some buffer) 78 (some 0)).2 ≡ some 74)
    × ((encode (some undo) (some buffer) 78 (some 0)).1
        ≡ some (record_bytes undo ++ drop 74 buffer))
    × (decode (encode (some undo) (some buffer) 78 (some 0)).1 74 (some undo) (some 0)
        ≡ (ok, some (record undo { token = some (token_bytes undo ++ drop 74 buffer) }), some 74))
decode-encode_token_example =
    decode-encode_token undo undo buffer 78 0 0 (omega arith) undo-valid (omega arith) (omega arith)
      (omega arith) (omega arith)

abbrev no_summary : Summary
no_summary = record { record_count = 0; next_sequence = 0 }

scan-store :
    scan {C = Unit {0}} (some store) 146 none tt (some no_summary)
    ≡ (ok, some (record { record_count = 2; next_sequence = 3 }), tt)
unfolding scan scan_loop scan_step decode_record decoded_record header_refused record_valid read_u16
    read_u32 read_u64 checksum_parts
scan-store = refl

scan-Tokens_example : Tokens store 146 (record { record_count = 2; next_sequence = 3 })
scan-Tokens_example =
    scan-Tokens store 146 none tt tt no_summary (record { record_count = 2; next_sequence = 3 })
      scan-store

-- The store has two tokens of one key.
find-twice : find (some store) 146 undo_key (some undo) (some (0 ∷ 0 ∷ 0 ∷ [])) 3 (some 7) ≡ (
  duplicate_token,
  some (record undo { token = some (b'h' ∷ b'i' ∷ 0 ∷ []) }),
  some (b'h' ∷ b'i' ∷ 0 ∷ []),
  some 1,
)
unfolding find find_loop consider take_candidate decode_record decoded_record header_refused
    record_valid key_equal read_u16 read_u32 read_u64 checksum_parts
find-twice = refl

-- A callback that appends to a file in memory.
abbrev file_append : List ℕ → List ℕ → CompensationResult × List ℕ
file_append file bytes = (ok, file ++ bytes)

abbrev new_writer : Writer (List ℕ)
new_writer = record { write = some file_append; context = []; next_sequence = 1 }

init-writer :
    writer_init (some (record new_writer { next_sequence = 8 })) (some file_append) [] 1
    ≡ (ok, some new_writer)
unfolding writer_init
init-writer = refl

append-undo : writer_append (some new_writer) (record undo { sequence = 9 }) (some buffer) 78 ≡ (
  ok,
  some (record new_writer { context = undo_bytes; next_sequence = 2 }),
  some (undo_bytes ++ replicate 4 9),
)
unfolding writer_append append_with hand_over encode_record record_valid write_record write_header
    write_token write_u16 write_u32 write_u64 checksum_parts
append-undo = refl
