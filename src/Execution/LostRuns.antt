-- ===== src/Execution/LostRuns.antt =====
-- The theorems on accepted images at work, on a workflow of one Action.
use hermas.Base.{◌<◌, ◌≡◌, refl, inl, arith, some, []}
use hermas.Bytes.{byte_at, read_u16, read_u32}
use hermas.Image.Tables.{header_of}
use hermas.Image.Records.{node_at}
use hermas.Image.Validate.{verifier}
use hermas.Image.Validate.Counted.{not_sent, kind_of}
use hermas.Image.Validate.Runs.{workflow, blank, accepted, workflow_run}
use hermas.Execution.{Execution, prepared, complete, ok, is_prepared, finish_delivery_outcome}
use hermas.Execution.Lost.{finish_delivery_outcome-complete}
use hermas.Protocol.Outcome as Outcome

first_node : 0 < (header_of workflow).node_count
unfolding read_u16
first_node = omega arith

first_action : byte_at workflow (node_at workflow (header_of workflow) 0) ≡ 1
unfolding read_u32
first_action = refl

abbrev delivering : Execution
delivering = record {
  image = workflow;
  image_size = 273;
  value_buffer = some [];
  value_capacity = 0;
  value_length = 0;
  execution_id = 1;
  request_id = 1;
  current_node = 1;
  value_source_type = 1;
  value_destination_type = 1;
  terminal_outcome = 0;
  state = prepared;
}

finish_delivery_outcome-complete_example :
    (e' : Execution) × (finish_delivery_outcome
        (verifier blank)
        (some delivering)
        is_prepared
        (kind_of not_sent)
        Outcome.not_sent
      ≡ (ok, some e'))
    × (e'.state ≡ complete)
    × (e'.terminal_outcome ≡ Outcome.not_sent)
    × (e'.value_length ≡ 0)
finish_delivery_outcome-complete_example =
    finish_delivery_outcome-complete (verifier blank) 273 accepted 0 not_sent delivering is_prepared
      Outcome.not_sent workflow_run first_node first_action refl (inl refl) refl
