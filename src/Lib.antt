-- ===== src/Lib.antt =====
-- Hermas: the durable formats and the protocol of the C runtime.
--
-- The runtime executes verified graphs of Actions. Clients, apps and the daemon exchange packets
-- (src/protocol.c). The daemon writes what happened to an execution journal (src/journal.c), and
-- after a crash it decides from the journal alone what may still run. Sagas undo a workflow that
-- failed: their log is src/saga_log.c, the results of finished workflows are kept by src/result.c and
-- the tokens of compensations by src/compensation.c. Each of these stores is a sequence of records
-- with a sequence number and a checksum, which a writer appends and a scan reads from the start. An
-- execution walks its graph in src/runtime.c: it hands out invocations and takes results. When it
-- fails inside a saga, src/saga.c undoes the steps that succeeded, from the last to the first, and
-- logs each delivery. Clients reach the daemon's loop through src/control.c, and src/image.c checks
-- the values that an execution takes and hands on against the types of its graph image. This
-- development models the packets, the records, the writers, the scans, the sequential runtime, the
-- saga planner, the verifier of graph images, the values and the calls of the clients.
--
-- Files:
--   Base          names, tests, lists and guard chains that all modules share.
--   Bytes         the read_u* and write_u* helpers of the .c files, memset, memcpy and memcmp.
--                 A buffer is a list of numbers; Bytes.Fields and Bytes.Canonical treat a record
--                 as a list of fields, each a width and a value.
--   Crc           the checksum of the four stores: one bit, one byte, a buffer, two parts.
--   Protocol      src/protocol.c: hermas_protocol_encode and hermas_protocol_decode as encode and
--                 decode; a frame is the record Frame with the C fields.
--   Journal       src/journal.c: hermas_journal_encode, hermas_journal_decode, the writer and
--                 hermas_journal_image_fingerprint; Journal.Scan is hermas_journal_scan.
--                 Journal.Scan.Opens reads off the records of an execution which deliveries they
--                 leave open, Journal.Scan.Lived relates that to the scan's entry.
--   SagaLog       src/saga_log.c: the codec, hermas_saga_log_scan (SagaLog.Scan) with its transition
--                 (SagaLog.Transition), and the writer. SagaLog.Transition.Phase is the abstract
--                 life of a saga, a step relation.
--   Result        src/result.c: the codec, hermas_result_scan (Result.Scan), hermas_result_find
--                 (Result.Find) and the writer. Result.Contents is a store as a list of records.
--   Compensation  src/compensation.c, in the same way.
--   Image         src/image.c and include/hermas/image.h. Image.Utf8 is valid_utf8; Image.Value is
--                 validate_representation, validate_value_inner and hermas_image_validate_value;
--                 Image.Items is hermas_image_list_items; Image.Lookup is hermas_image_features,
--                 hermas_image_describe_type, hermas_image_action_fingerprint and
--                 hermas_image_find_action_contract. hermas_image_validate is Image.Tables (the
--                 header, the offsets, checked_table_end, contains_u16, contains_action_contract,
--                 representation_child), Image.Records (the loops over errors, contracts, types and
--                 nodes), Image.Regions, Image.Edges, Image.Counts and Image.Topology (the loops over
--                 regions and edges, the last checks and the reachability passes), put together in
--                 Image.Validate as check_image and validate. The operations that the clients call
--                 are an interface, the record Image.Verifier, which Image.Validate.verifier fills.
--   Execution     src/runtime.c, hermas_execution_*: hermas_execution_start as start, and so on for
--                 prepare, mark_sent, mark_not_sent, mark_unknown, accept_result and get_result.
--                 Execution.Dispatch and Execution.Cases describe the walks of route_dispatch,
--                 Execution.Deliveries is the state machine of the deliveries, Execution.Life are
--                 sequences of calls, Execution.Frames relates the frames to Protocol,
--                 Execution.Ports and Execution.Lost the edges it follows to the images that
--                 Image.Validate accepts.
--   Saga          src/saga.c: load_steps and validate_token; Saga.Operations are
--                 hermas_saga_prepare and the calls that end a delivery, Saga.Live, Saga.Recover and
--                 Saga.Reconcile are hermas_saga_begin_live, hermas_saga_recover and
--                 hermas_saga_reconcile, Saga.Driver is hermas_saga_driver_*. Saga.Machine is the
--                 state machine of an execution; Saga.Logged, Saga.Steps, Saga.Follows and Saga.Drive
--                 relate what the driver appends to SagaLog.Transition.Phase; the log is the
--                 interface Log, which writer_log fills with the writer of SagaLog.
--   Control       src/control.c: submit, collect and release; the daemon's loop is an interface, the
--                 record DaemonLoop of Control.Loop. Control.Frames relates the packets of a client
--                 to the frames of the loop.
--
-- Conventions: a pointer that may be null is an Option; a function that writes through pointers
-- returns its result code with the memory behind them after the call; a buffer and the size that the
-- caller passes for it are separate arguments, and theorems assume that the size is at most the
-- length of the buffer. Integers are natural numbers, with the wrap of a cast written out; that a
-- field fits its C type is a hypothesis (IsFrame, IsRecord). Loops recur on the list or on the
-- rounds left. The loops of src/result.c and src/compensation.c, which advance by the size of a
-- record, take as many rounds as the store has bytes: a record has at least 64, so the loop ends
-- before the rounds do. A chain of dispatches in src/runtime.c takes 8 bytes off the value each
-- time, so as many rounds as the value has times 8 bytes are enough. Representations and values
-- nest: the source fails at a depth over 64; the model takes as many levels as are left, 65 less the
-- depth, and fails when there are none. The reachability loop of hermas_image_validate makes at most
-- as many passes as there are nodes, as in the source. A local array of that function is a function
-- of the index: every index is compared with a bound before it is used. A callback is a function on
-- the memory behind its context pointer. Distinct pointers point to distinct memory: the buffer of a
-- search does not overlap the store, and a callback does not change the bytes that are scanned.
--
-- Not modelled: the tables of names for result codes, files, sockets and processes (the *_linux.c
-- files), the tools, the compiler, the daemon's loop (src/loop_linux.c), which is an interface of
-- Control, and the parallel runtime (hermas_group_* of src/runtime.c). Memory that a function does
-- not write before it reads it, such as the scratch buffer of hermas_saga_begin_live, is an argument
-- of the definition.
pub mod Base
pub mod Bytes
pub mod Crc
pub mod Protocol
pub mod Journal
pub mod SagaLog
pub mod Result
pub mod Compensation
pub mod Image
pub mod Execution
pub mod Control
pub mod Saga
