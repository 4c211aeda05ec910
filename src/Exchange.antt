-- ===== src/Exchange.antt =====
-- Rounds between the manager and the aggregator's server: `request_rav` of an indexer
-- (crates/integration_tests/tests/indexer_mock.rs) over the in-memory context, and the run of an
-- indexer that receives receipts, makes rounds, and cleans up.
pub mod Ledger
pub mod Progress
use graph_tally.Prelude.{
  ℕ, ◌≡◌, Bool, true, false, ◌&&◌, List, [], ◌∷◌, ◌++◌, Option, none, some, String, Result, ok, err,
  map_err, guard, length, ◌==◌,
}
use graph_tally.Message.{Alloy, SolStruct}
use graph_tally.Receipt.{AggregationError, Failed, ReceiptWithState, signed_value, signed_unique_id}
use graph_tally.Graph.{
  Receipt, ReceiptAggregateVoucher, SignedReceipt, SignedRav, receipt_value, rav_value,
}
use graph_tally.Core.{Error, RavRequest}
use graph_tally.Core.Exec.{Exec, reads, or_else, ◌>>=◌, ◌>>◌}
use graph_tally.Core.Memory.{
  InMemoryContext, Stored, memory_rav_read, memory_rav_store, memory_receipt_store,
  memory_receipt_read, memory_receipt_delete, memory_signature_checker,
}
use graph_tally.Core.Requests.{Manager, create_rav_request}
use graph_tally.Core.Manager.{
  verify_and_store_rav, verify_and_store_receipt, remove_obsolete_receipts,
}
use graph_tally.Core.Vouchers.{graph_aggregate, rav_partial_eq}
use graph_tally.Aggregator.{check_and_aggregate_receipts}
use graph_tally.Aggregator.Signers.{SignerRegistry}
use graph_tally.Aggregator.Agreement.{sent}
use graph_tally.Aggregator.Rpc.{JsonRpcError, aggregate_receipts_of_version}

-- What ends a round: an error of the manager, of the aggregation, or of the server, or receipts
-- that are invalid or missing.
pub data RoundError : Type 0 where
  of_manager : Error → RoundError
  of_aggregation : AggregationError → RoundError
  of_server : JsonRpcError → RoundError
  invalid_receipts_found : RoundError

abbrev pub is_empty : List (ReceiptWithState Failed SignedReceipt) → Bool
is_empty [] = true
is_empty (_ ∷ _) = false

-- `InMemoryContext` sorts by `sort`; the aggregator that answers has the registry `signers`.
module _ (alloy : Alloy) ⦃receipt_sol : SolStruct Receipt⦄
    ⦃rav_sol : SolStruct ReceiptAggregateVoucher⦄ (sort : List Stored → List Stored) {Ctx : Type 0}
    (manager : Manager Ctx SignedReceipt) (ctx : Ctx) (signers : SignerRegistry) where
  abbrev pub make_request :
      Result ℕ (Unit {0})
      → ℕ
      → Option ℕ
      → InMemoryContext
      → Result (RavRequest SignedReceipt ReceiptAggregateVoucher) Error
  make_request clock buffer limit =
      create_rav_request ⦃receipt_read = memory_receipt_read sort⦄ ⦃u = signed_unique_id alloy⦄
        manager ctx clock buffer limit

  -- What follows the aggregator's answer.
  unfoldable pub conclude :
      ℕ
      → RavRequest SignedReceipt ReceiptAggregateVoucher
      → SignedRav
      → Exec InMemoryContext RoundError (Unit {0})
  conclude threshold rav_request remote_rav = do
    expected_rav ← reads (λ _. map_err of_aggregation rav_request.expected_rav)
    or_else of_manager (verify_and_store_rav alloy manager expected_rav remote_rav)
    reads (λ _.
        guard
          (is_empty rav_request.invalid_receipts && length rav_request.valid_receipts == threshold)
          invalid_receipts_found)

  -- The call of the aggregator, and what follows.
  unfoldable pub submit :
      String
      → ℕ
      → RavRequest SignedReceipt ReceiptAggregateVoucher
      → Exec InMemoryContext RoundError (Unit {0})
  unfolding conclude
  submit api_version threshold rav_request = do
    remote_rav_result ← reads (λ _. map_err of_server (
        aggregate_receipts_of_version alloy signers manager.domain_separator api_version
          (sent rav_request.valid_receipts) rav_request.previous_rav))
    conclude threshold rav_request remote_rav_result.content

  unfoldable pub request_rav :
      Result ℕ (Unit {0}) → ℕ → String → ℕ → Exec InMemoryContext RoundError (Unit {0})
  unfolding submit
  request_rav clock time_stamp_buffer api_version threshold = do
    rav_request ← reads (λ s. map_err of_manager (make_request clock time_stamp_buffer none s))
    submit api_version threshold rav_request

  -- A round that stored a voucher.
  pub record Settled (clock : Result ℕ (Unit {0})) (buffer : ℕ) (limit : Option ℕ)
      (request : RavRequest SignedReceipt ReceiptAggregateVoucher) (signed : SignedRav)
      (s after : InMemoryContext) : Type 0 where
    pub requested : make_request clock buffer limit s ≡ ok request
    pub signs :
        check_and_aggregate_receipts alloy manager.domain_separator
          (sent request.valid_receipts)
          request.previous_rav
          signers
        ≡ ok signed
    pub expected : ReceiptAggregateVoucher
    pub stores : verify_and_store_rav alloy manager expected signed s ≡ (ok tt, after)

  -- A run from a context without a voucher, with the receipts that went into vouchers so far: any
  -- receipts arrive, rounds are made at any times, and obsolete receipts are removed.
  pub data Run : List SignedReceipt → InMemoryContext → Type 0 where
    begin : {s : InMemoryContext} → s.rav_storage ≡ none → Run [] s
    receive :
        {ledger : List SignedReceipt} {s after : InMemoryContext}
        → Run ledger s
        → (receipt : SignedReceipt) → (verify_and_store_receipt manager ctx receipt s).1 ≡ after
        → Run ledger after
    settle :
        {ledger more : List SignedReceipt} {s after : InMemoryContext}
        → Run ledger s
        → (clock : Result ℕ (Unit {0})) (buffer : ℕ) (limit : Option ℕ)
          (request : RavRequest SignedReceipt ReceiptAggregateVoucher) (signed : SignedRav)
        → Settled clock buffer limit request signed s after
        → sent request.valid_receipts ++ ledger ≡ more
        → Run more after
    clean :
        {ledger : List SignedReceipt} {s after : InMemoryContext}
        → Run ledger s
        → (remove_obsolete_receipts ReceiptAggregateVoucher manager s).1 ≡ after
        → Run ledger after
