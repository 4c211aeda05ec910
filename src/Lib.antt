-- ===== src/Lib.antt =====
-- A model of Graph Tally: receipts that gateways sign for indexers, vouchers (RAVs) that aggregate
-- them, and the escrow that backs them. Paths are from the repository's root.
--
-- The parts, and how they interact:
-- - Message: signed messages (crates/eip712_message). A message is created with a key and recovered
--   to its signer; everything below hands signed receipts and signed vouchers around.
-- - Receipt: receipts with their state and their checks (crates/receipt). `Checking`, `Checked` and
--   `Failed` are types, as in the source; `perform_checks` and `finalize_receipt_checks` are in the
--   module itself, the built-in checks in Receipt.Checks.
-- - Graph: the structs Receipt and ReceiptAggregateVoucher and `aggregate_receipts` (crates/graph).
-- - Core: the indexer's side (crates/core). Core.Requests is `create_rav_request` with
--   `collect_receipts`; Core.Manager is `verify_and_store_rav`, `remove_obsolete_receipts` and
--   `verify_and_store_receipt`; Core.Adapters are the traits that these use, as records that are
--   taken as instances; Core.Memory is the context that implements them
--   (crates/core/src/manager/context/memory.rs), its locks left out: an operation is a function of
--   the context. A method that changes the storage and may fail returns its result beside the
--   storage (Core.Exec), so that what was written before an error is there.
-- - Aggregator: the gateway's side (crates/bin/aggregator/src/aggregator.rs and signers.rs):
--   `check_and_aggregate_receipts` with each of its checks, and the registry of the payers' keys.
--   Aggregator.Agreement puts the two sides together: what the manager requests against what the
--   aggregator answers. Aggregator.Grpc are the protocol messages and their conversions (grpc.rs),
--   Aggregator.Grpc.Handler and Aggregator.Rpc the handlers of gRPC and of JSON-RPC (server.rs) as
--   functions of the counters of the metrics and of the records produced to Kafka, which
--   Aggregator.Kafka are. Aggregator.Grpc.V2 are the messages and the handler of older clients, and
--   Aggregator.Startup reads the configured signers and the domain (main.rs).
-- - Exchange: whole rounds between the manager and the server, as the indexer of
--   crates/integration_tests/tests/indexer_mock.rs makes them (`request_rav`), and the runs in which
--   receipts arrive, rounds are made and obsolete receipts are removed.
-- - EscrowManager: deposits, thaws and withdrawals (crates/bin/escrow_manager/src/main.rs):
--   `next_balance`, `decide`, `reduce_adjustments`, and the plan and the transactions of a cycle
--   (EscrowManager.Cycle), from the answers of the subgraph on (EscrowManager.Cycle.Whole); the
--   debts come from EscrowManager.Receipts and EscrowManager.Ravs (kafka.rs), whose messages
--   EscrowManager.Receipts.Aggregated, EscrowManager.Receipts.Messages and EscrowManager.Ravs.Parse
--   read; EscrowManager.Receipts.Task is the task that keeps the fees. EscrowManager.Contracts
--   are the calls of the contracts (contracts.rs), EscrowManager.Subgraphs the queries of the
--   subgraph (subgraphs.rs), EscrowManager.Startup the start of main.
-- - Prelude: Boolean tests, lists, results, maps as association lists, and machine integers.
-- - Tests: the theorems at concrete inputs, with toy cryptography and an insertion sort.
--
-- Numbers are natural numbers. A sum on `u128` or `u64` wraps where the source's does in a release
-- build; `checked_add` and saturating subtraction are written out. Addresses, hashes, keys and
-- signatures are numbers that are compared, and written as bytes where the source does. The `i64`
-- times of the Kafka messages are those from 0 on, and adding an hour to one does not wrap.
--
-- Parameters: the cryptography (`Alloy`) and the hashing of a struct (`SolStruct`), of which only
-- `SignRecovers` is assumed, where it is named; the clock; the unstable sort by timestamp, of which
-- it is assumed that it sorts and keeps every receipt; the floating-point test of `next_balance`,
-- as the test `reaches`; the answers of the contracts; the bytes of addresses, words and signatures
-- (`Slices`), of which `ReadsBack` is assumed where it is named; the texts of addresses and words
-- (`Texts`), of which `ReadsTexts` is assumed where it is named, and the parsers of addresses and
-- keys at the start; the contract of the token, of which `Approves` is assumed where it is named;
-- the transactions, and `keccak256`; the decoders of protobuf, and a fee in wei. `HashMap`s are
-- lists in some order of iteration.
--
-- Fuel: `next_balance` and `reduce_adjustments` take fuel for their loops. For `next_balance` a
-- bound on the steps that the debt reaches is enough, as each round goes up by at least one; for
-- `reduce_adjustments` the cap in wei is enough, as each round that does not return adds at least
-- one.
--
-- Not modelled: the HTTP servers and the command lines, the Kafka consumers, the chain behind the
-- calls of the contracts, the pages of the subgraph, the floating-point metrics and log lines. The
-- parallel check of signatures is taken in order, so of several bad signatures another one may be
-- reported; so are the messages of the vouchers, of which the source reads up to 16 at a time
-- without a pause within one.
pub mod Prelude
pub mod Message
pub mod Receipt
pub mod Graph
pub mod Core
pub mod Aggregator
pub mod EscrowManager
pub mod Exchange
pub mod Tests
