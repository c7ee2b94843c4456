-- ===== src/Result/Runs.antt =====
-- Concrete stores, and the theorems at concrete inputs.
use hermas.Base.{ℕ, ◌≡◌, refl, arith, List, [], ◌∷◌, ◌++◌, some, none, true, drop, replicate}
use hermas.Bytes.{read_u16, read_u32, read_u64, write_u16, write_u32, write_u64}
use hermas.Crc.{checksum_parts}
use hermas.Result.{
  ResultRecord, ResultKey, ResultStoreResult, ok, key_equal, record_valid, write_header,
  write_value, write_record, encode_record, encode, decoded_record, header_refused, decode_record,
  decode,
}
use hermas.Result.Layout.{record_bytes, value_bytes}
use hermas.Result.RoundTrip.{decode-encode_result}
use hermas.Result.Scan.{Summary, prior_loop, scan_step, scan_loop, scan}
use hermas.Result.Find.{take_candidate, consider, find_loop, find}
use hermas.Result.Lookup.{Store, scan-Store}
use hermas.Result.Writer.{Writer, writer_init, append_with, hand_over, writer_append}

abbrev hello_key : ResultKey
hello_key = record { execution_id = 5; workflow_id = 2; image_fingerprint = 77 }

abbrev hello : ResultRecord
hello = record {
  sequence = 1;
  key = hello_key;
  outcome = 1;
  source_type = 3;
  destination_type = 4;
  value = some (b'h' ∷ b'i' ∷ []);
  value_length = 2;
}

abbrev hello_bytes : List ℕ
hello_bytes =
    72 ∷ 82 ∷ 83 ∷ 49 ∷ 1 ∷ 0 ∷ 64 ∷ 0 ∷ 66 ∷ 0 ∷ 0 ∷ 0 ∷ 2 ∷ 0 ∷ 0 ∷ 0 ∷ 1 ∷ 0 ∷ 0 ∷ 0 ∷ 0 ∷ 0 ∷ 0
    ∷ 0 ∷ 5 ∷ 0 ∷ 0 ∷ 0 ∷ 0 ∷ 0 ∷ 0 ∷ 0 ∷ 2 ∷ 0 ∷ 0 ∷ 0 ∷ 0 ∷ 0 ∷ 0 ∷ 0 ∷ 77 ∷ 0 ∷ 0 ∷ 0 ∷ 0 ∷ 0 ∷ 0
    ∷ 0 ∷ 1 ∷ 0 ∷ 3 ∷ 0 ∷ 4 ∷ 0 ∷ 0 ∷ 0 ∷ 228 ∷ 209 ∷ 7 ∷ 203 ∷ 0 ∷ 0 ∷ 0 ∷ 0 ∷ 104 ∷ 105 ∷ []

abbrev empty_bytes : List ℕ
empty_bytes =
    72 ∷ 82 ∷ 83 ∷ 49 ∷ 1 ∷ 0 ∷ 64 ∷ 0 ∷ 64 ∷ 0 ∷ 0 ∷ 0 ∷ 0 ∷ 0 ∷ 0 ∷ 0 ∷ 2 ∷ 0 ∷ 0 ∷ 0 ∷ 0 ∷ 0 ∷ 0
    ∷ 0 ∷ 6 ∷ 0 ∷ 0 ∷ 0 ∷ 0 ∷ 0 ∷ 0 ∷ 0 ∷ 2 ∷ 0 ∷ 0 ∷ 0 ∷ 0 ∷ 0 ∷ 0 ∷ 0 ∷ 77 ∷ 0 ∷ 0 ∷ 0 ∷ 0 ∷ 0 ∷ 0
    ∷ 0 ∷ 2 ∷ 0 ∷ 3 ∷ 0 ∷ 4 ∷ 0 ∷ 0 ∷ 0 ∷ 117 ∷ 103 ∷ 175 ∷ 67 ∷ 0 ∷ 0 ∷ 0 ∷ 0 ∷ []

abbrev store : List ℕ
store = hello_bytes ++ empty_bytes

abbrev buffer : List ℕ
buffer = replicate 70 9

hello-valid : record_valid hello ≡ true
unfolding record_valid
hello-valid = refl

encode-hello :
    encode (some hello) (some buffer) 70 (some 0)
    ≡ (ok, some (hello_bytes ++ replicate 4 9), some 66)
unfolding encode encode_record record_valid write_record write_header write_value write_u16
    write_u32 write_u64 checksum_parts
encode-hello = refl

decode-encode_result_example :
    ((encode (some hello) (some buffer) 70 (some 0)).0 ≡ ok)
    × ((encode (some hello) (some buffer) 70 (some 0)).2 ≡ some 66)
    × ((encode (some hello) (some buffer) 70 (some 0)).1
        ≡ some (record_bytes hello ++ drop 66 buffer))
    × (decode (encode (some hello) (some buffer) 70 (some 0)).1 66 (some hello) (some 0)
        ≡ (ok, some (record hello { value = some (value_bytes hello ++ drop 66 buffer) }), some 66))
decode-encode_result_example =
    decode-encode_result hello hello buffer 70 0 0 (omega arith) hello-valid (omega arith)
      (omega arith) (omega arith) (omega arith)

abbrev no_summary : Summary
no_summary = record { record_count = 0; next_sequence = 0 }

scan-store :
    scan {C = Unit {0}} (some store) 130 none tt (some no_summary)
    ≡ (ok, some (record { record_count = 2; next_sequence = 3 }), tt)
unfolding scan scan_loop scan_step prior_loop decode_record decoded_record header_refused
    record_valid key_equal read_u16 read_u32 read_u64 checksum_parts
scan-store = refl

scan-Store_example : Store store 130 (record { record_count = 2; next_sequence = 3 })
scan-Store_example =
    scan-Store store 130 none tt tt no_summary (record { record_count = 2; next_sequence = 3 })
      scan-store

find-hello : find (some store) 130 hello_key (some hello) (some (0 ∷ 0 ∷ 0 ∷ [])) 3 (some 7) ≡ (
  ok,
  some (record hello { value = some (b'h' ∷ b'i' ∷ 0 ∷ []) }),
  some (b'h' ∷ b'i' ∷ 0 ∷ []),
  some 1,
)
unfolding find find_loop consider take_candidate decode_record decoded_record header_refused
    record_valid key_equal read_u16 read_u32 read_u64 checksum_parts
find-hello = refl

-- A callback that appends to a file in memory.
abbrev file_append : List ℕ → List ℕ → ResultStoreResult × List ℕ
file_append file bytes = (ok, file ++ bytes)

abbrev new_writer : Writer (List ℕ)
new_writer = record { write = some file_append; context = []; next_sequence = 1 }

init-writer :
    writer_init (some (record new_writer { next_sequence = 8 })) (some file_append) [] 1
    ≡ (ok, some new_writer)
unfolding writer_init
init-writer = refl

append-hello : writer_append (some new_writer) (record hello { sequence = 9 }) (some buffer) 70 ≡ (
  ok,
  some (record new_writer { context = hello_bytes; next_sequence = 2 }),
  some (hello_bytes ++ replicate 4 9),
)
unfolding writer_append append_with hand_over encode_record record_valid write_record write_header
    write_value write_u16 write_u32 write_u64 checksum_parts
append-hello = refl
