-- ===== src/Exchange/Ledger/Concluded.antt =====
-- How a round ends, whatever it returns (crates/integration_tests/tests/indexer_mock.rs:
-- request_rav).
use graph_tally.Prelude.{
  ℕ, ◌≡◌, ◌≢◌, ◌⊎◌, refl, ap, ◌∙◌, Bool, true, ◌&&◌, List, [], ◌∷◌, none, String, Result, ok, err,
  map_err, guard, guard-true, length, ◌==◌, ==_iff, arith, Bool-cases, Result-cases, inl, inr,
}
use graph_tally.Message.{Alloy, SolStruct}
use graph_tally.Receipt.{Failed, ReceiptWithState, signed_value}
use graph_tally.Graph.{
  Receipt, ReceiptAggregateVoucher, SignedReceipt, SignedRav, receipt_value, rav_value,
}
use graph_tally.Core.{Error, RavRequest}
use graph_tally.Core.Memory.{
  InMemoryContext, Stored, memory_rav_read, memory_rav_store, memory_signature_checker,
  update_last_rav,
}
use graph_tally.Core.Adapters.{check_signature}
use graph_tally.Core.Requests.{Manager}
use graph_tally.Core.Manager.{verify_and_store_rav}
use graph_tally.Core.Manager.Storage.{verify_and_store_rav-outcome}
use graph_tally.Core.Vouchers.{graph_aggregate, rav_partial_eq, rav_eq}
use graph_tally.Aggregator.{check_and_aggregate_receipts}
use graph_tally.Aggregator.Signers.{SignerRegistry}
use graph_tally.Aggregator.Agreement.{sent}
use graph_tally.Aggregator.Rpc.{JsonRpcResponse, JsonRpcError, aggregate_receipts_of_version}
use graph_tally.Core.Exec.{Exec, reads, or_else, reads_ok, reads_err, or_else_ok, or_else_err, ◌>>◌}
use graph_tally.Exchange.{
  RoundError, of_manager, of_server, of_aggregation, invalid_receipts_found, is_empty, make_request,
  conclude, submit, request_rav, Settled,
}
use graph_tally.Exchange.Ledger.Signs.{aggregate_receipts_of_version-signs}

and-true : (a b : Bool) → (a && b) ≡ true → (a ≡ true) × (b ≡ true)
and-true a b h = (ground (arith, h), ground (arith, h))

is_empty-true : (xs : List (ReceiptWithState Failed SignedReceipt)) → is_empty xs ≡ true → xs ≡ []
is_empty-true [] h = refl
is_empty-true (x ∷ xs) h = absurd (cc h)

module _ (alloy : Alloy) ⦃receipt_sol : SolStruct Receipt⦄
    ⦃rav_sol : SolStruct ReceiptAggregateVoucher⦄ (sort : List Stored → List Stored) {Ctx : Type 0}
    (manager : Manager Ctx SignedReceipt) (ctx : Ctx) (signers : SignerRegistry)
    (clock : Result ℕ (Unit {0})) (buffer : ℕ) (version : String) (threshold : ℕ)
    (s : InMemoryContext) where
  -- A round leaves the context alone and fails, or stores a voucher.
  abbrev pub Answered : Result (Unit {0}) RoundError × InMemoryContext → Type 0
  Answered round =
      ((round.1 ≡ s) × (round.0 ≢ ok tt))
      ⊎ ((request : RavRequest SignedReceipt ReceiptAggregateVoucher) × (signed : SignedRav)
          × Settled alloy sort manager ctx signers clock buffer none request signed s round.1
          × (round.0 ≡ ok tt
              → (length request.valid_receipts ≡ threshold) × (request.invalid_receipts ≡ [])))

  verify_and_store_rav-keeps :
      (expected : ReceiptAggregateVoucher) (signed : SignedRav)
      → (verify_and_store_rav alloy manager expected signed s
          ≡ (ok tt, (verify_and_store_rav alloy manager expected signed s).1))
        ⊎ ((e : Error) × (verify_and_store_rav alloy manager expected signed s ≡ (err e, s)))
  unfolding verify_and_store_rav update_last_rav
  verify_and_store_rav-keeps expected signed =
      let outcome = verify_and_store_rav-outcome alloy manager expected signed s in
      elim (Result-cases (check_signature alloy signed manager.domain_separator s)) [
        | inr (e, bad) ↦ inr (e, outcome.0 e bad)
        | inl (u, good) ↦ elim (Bool-cases (rav_eq signed.message expected)) [
          | inl same ↦ inl (ground (arith, (outcome.1 good).1 same))
          | inr differ ↦ inr (Error.invalid_received_rav, (outcome.1 good).0 differ)
        ]
      ]

  module _ (request : RavRequest SignedReceipt ReceiptAggregateVoucher) (signed : SignedRav)
      (expected : ReceiptAggregateVoucher) (m : request.expected_rav ≡ ok expected) where
    complete : Exec InMemoryContext RoundError (Unit {0})
    complete = reads (λ _.
        guard (is_empty request.invalid_receipts && length request.valid_receipts == threshold)
          invalid_receipts_found)

    store : ReceiptAggregateVoucher → Exec InMemoryContext Error (Unit {0})
    store rav = verify_and_store_rav alloy manager rav signed

    conclude_stored :
        (after : InMemoryContext)
        → verify_and_store_rav alloy manager expected signed s ≡ (ok tt, after)
        → conclude alloy sort manager ctx signers threshold request signed s ≡ complete after
    unfolding conclude complete store
    conclude_stored after good =
        reads_ok (λ _. map_err of_aggregation request.expected_rav)
          (λ rav. or_else of_manager (store rav) >> complete) s expected (rw m)
        ∙ or_else_ok of_manager (store expected) (λ _. complete) s after tt good

    conclude_refused :
        (e : Error)
        → verify_and_store_rav alloy manager expected signed s ≡ (err e, s)
        → conclude alloy sort manager ctx signers threshold request signed s
          ≡ (err (of_manager e), s)
    unfolding conclude complete store
    conclude_refused e bad =
        reads_ok (λ _. map_err of_aggregation request.expected_rav)
          (λ rav. or_else of_manager (store rav) >> complete) s expected (rw m)
        ∙ or_else_err of_manager (store expected) (λ _. complete) s s e bad

  conclude-Answered :
      (request : RavRequest SignedReceipt ReceiptAggregateVoucher) (signed : SignedRav)
      → make_request alloy sort manager ctx signers clock buffer none s ≡ ok request
      → check_and_aggregate_receipts alloy manager.domain_separator
          (sent request.valid_receipts)
          request.previous_rav
          signers
        ≡ ok signed
      → Answered (conclude alloy sort manager ctx signers threshold request signed s)
  unfolding conclude complete
  conclude-Answered request signed h k = elim (Result-cases request.expected_rav) [
    | inr (e, m) ↦ rw m (inl (refl, λ l. cc l))
    | inl (expected, m) ↦ elim (verify_and_store_rav-keeps expected signed) [
      | inr (e, bad) ↦ rw (conclude_refused request signed expected m e bad) (inl (refl, λ l. cc l))
      | inl good ↦
          let after = (verify_and_store_rav alloy manager expected signed s).1 in
          rw (conclude_stored request signed expected m after good) (
            inr (
              request,
              signed,
              record { requested = h; signs = k; expected = expected; stores = good },
              λ l. full request l,
            ))
    ]
  ]
    where
      full :
          (q : RavRequest SignedReceipt ReceiptAggregateVoucher)
          → guard
              (is_empty q.invalid_receipts && length q.valid_receipts == threshold)
              invalid_receipts_found
            ≡ ok tt
          → (length q.valid_receipts ≡ threshold) × (q.invalid_receipts ≡ [])
      full q l =
          let (empty, many) = and-true (is_empty q.invalid_receipts) _ (
            guard-true (is_empty q.invalid_receipts && length q.valid_receipts == threshold)
              invalid_receipts_found l) in
          (
            (==_iff (length q.valid_receipts) threshold).0 many,
            is_empty-true q.invalid_receipts empty,
          )

  submit-Answered :
      (request : RavRequest SignedReceipt ReceiptAggregateVoucher)
      → make_request alloy sort manager ctx signers clock buffer none s ≡ ok request
      → Answered (submit alloy sort manager ctx signers version threshold request s)
  unfolding submit
  submit-Answered request h = elim (Result-cases answer) [
    | inr (e, k) ↦
        rw
          (reads_err (λ _. map_err of_server answer) next s (of_server e)
            (ap (map_err of_server) k))
          (inl (refl, λ l. cc l))
    | inl (response, k) ↦
        rw (reads_ok (λ _. map_err of_server answer) next s response (ap (map_err of_server) k)) (
          conclude-Answered request response.content h (
            aggregate_receipts_of_version-signs alloy signers manager.domain_separator
              request.previous_rav response version (sent request.valid_receipts) k))
  ]
    where
      answer : Result (JsonRpcResponse SignedRav) JsonRpcError
      answer =
          aggregate_receipts_of_version alloy signers manager.domain_separator version
            (sent request.valid_receipts) request.previous_rav

      next : JsonRpcResponse SignedRav → Exec InMemoryContext RoundError (Unit {0})
      next response = conclude alloy sort manager ctx signers threshold request response.content

  -- Whatever a round returns, it is an answered one.
  pub request_rav-Answered :
      Answered (request_rav alloy sort manager ctx signers clock buffer version threshold s)
  unfolding request_rav
  request_rav-Answered =
      elim (Result-cases (make_request alloy sort manager ctx signers clock buffer none s)) [
        | inr (e, h) ↦
            rw
              (reads_err
                (λ c.
                  map_err of_manager
                    (make_request alloy sort manager ctx signers clock buffer none c))
                (submit alloy sort manager ctx signers version threshold) s (of_manager e)
                (ap (map_err of_manager) h))
              (inl (refl, λ k. cc k))
        | inl (request, h) ↦
            rw
              (reads_ok
                (λ c.
                  map_err of_manager
                    (make_request alloy sort manager ctx signers clock buffer none c))
                (submit alloy sort manager ctx signers version threshold) s request
                (ap (map_err of_manager) h))
              (submit-Answered request h)
      ]
