-- ===== src/Core/Memory.antt =====
-- The in-memory context (crates/core/src/manager/context/memory.rs).
pub mod Checks
pub mod Receipts
pub mod Escrow
pub mod Obsolete
pub mod Retrieve
use graph_tally.Prelude.{
  ℕ, ◌-◌, Bool, true, false, not, List, [], ◌∷◌, map, Option, none, some, Result, ok, err, ok_or,
  if◌then◌else◌, leb, ltb, ◌==◌, retain, length, map_or,
}
use graph_tally.Prelude.Words.{add_u64, add_u128}
use graph_tally.Prelude.Maps.{Map, lookup, insert, remove, has_key}
use graph_tally.Message.{Address}
use graph_tally.Receipt.{Anyhow, Checking, ReceiptWithState, signed_value}
use graph_tally.Receipt.Checks.{StatefulTimestampCheck, update_min_timestamp_ns}
use graph_tally.Graph.{SignedReceipt, SignedRav, ReceiptAggregateVoucher, receipt_value}
use graph_tally.Core.Exec.{Exec}
use graph_tally.Core.Adapters.{
  RavStore, RavRead, ReceiptStore, ReceiptDelete, ReceiptRead, SignatureChecker,
}
use graph_tally.Core.Adapters.Truncate.{safe_truncate_receipts}

abbrev pub Stored : Type 0
Stored = ReceiptWithState Checking SignedReceipt

-- The values behind the locks. The order of the receipts stands for the map's iteration order,
-- which the source leaves open.
pub record InMemoryContext : Type 0 where
  pub rav_storage : Option SignedRav
  pub receipt_storage : Map Stored
  pub unique_id : ℕ
  pub sender_escrow_storage : Map ℕ
  pub timestamp_check : StatefulTimestampCheck
  pub sender_address : Option Address

abbrev pub new_context :
    Option SignedRav → Map Stored → Map ℕ → StatefulTimestampCheck → InMemoryContext
new_context rav_storage receipt_storage sender_escrow_storage timestamp_check = record {
  rav_storage = rav_storage;
  receipt_storage = receipt_storage;
  unique_id = 0;
  sender_escrow_storage = sender_escrow_storage;
  timestamp_check = timestamp_check;
  sender_address = none;
}

abbrev pub with_sender_address : Address → InMemoryContext → InMemoryContext
with_sender_address sender_address self = record self { sender_address = some sender_address }

abbrev pub no_receipt : Anyhow
no_receipt = Anyhow.msg "No receipt found with ID"

unfoldable pub retrieve_receipt_by_id : ℕ → InMemoryContext → Result Stored Anyhow
retrieve_receipt_by_id receipt_id self = ok_or (lookup receipt_id self.receipt_storage) no_receipt

unfoldable pub retrieve_receipts_by_timestamp : ℕ → InMemoryContext → Result (Map Stored) Anyhow
retrieve_receipts_by_timestamp timestamp_ns self =
    ok (retain (λ e. e.1.receipt.message.timestamp_ns == timestamp_ns) self.receipt_storage)

unfoldable pub remove_receipt_by_id : ℕ → Exec InMemoryContext Anyhow Unit
remove_receipt_by_id receipt_id self =
    if has_key receipt_id self.receipt_storage
    then (ok tt, record self { receipt_storage = remove receipt_id self.receipt_storage })
    else (err no_receipt, self)

-- The loop ends at the first id that is not there; what was removed before stays removed.
unfoldable pub remove_receipts_by_ids : List ℕ → Exec InMemoryContext Anyhow Unit
unfolding remove_receipt_by_id
remove_receipts_by_ids [] self = (ok tt, self)
remove_receipts_by_ids (receipt_id ∷ receipt_ids) self =
    let (r, self') = remove_receipt_by_id receipt_id self in
    elim r [ ok _ ↦ remove_receipts_by_ids receipt_ids self' | err e ↦ (err e, self') ]

unfoldable pub update_last_rav : SignedRav → Exec InMemoryContext Anyhow Unit
unfolding update_min_timestamp_ns
update_last_rav rav self = (
  ok tt,
  record self {
    rav_storage = some rav;
    timestamp_check = update_min_timestamp_ns rav.message.timestamp_ns self.timestamp_check;
  },
)

unfoldable pub last_rav : InMemoryContext → Result (Option SignedRav) Anyhow
last_rav self = ok self.rav_storage

unfoldable pub store_receipt : Stored → Exec InMemoryContext Anyhow ℕ
store_receipt receipt self = (
  ok self.unique_id,
  record self {
    receipt_storage = insert self.unique_id receipt self.receipt_storage;
    unique_id = add_u64 self.unique_id 1;
  },
)

unfoldable pub remove_receipts_in_timestamp_range : (ℕ → Bool) → Exec InMemoryContext Anyhow Unit
remove_receipts_in_timestamp_range in_range self = (
  ok tt,
  record self {
    receipt_storage =
        retain (λ e. not (in_range e.1.receipt.message.timestamp_ns)) self.receipt_storage;
  },
)

module _ (sort : List Stored → List Stored) where
  unfoldable pub retrieve_receipts_in_timestamp_range :
      (ℕ → Bool) → Option ℕ → InMemoryContext → Result (List Stored) Anyhow
  retrieve_receipts_in_timestamp_range in_range limit self =
      let receipts_in_range =
        map (λ (e : ℕ × Stored). e.1)
          (retain (λ e. in_range e.1.receipt.message.timestamp_ns) self.receipt_storage) in
      ok (
        map_or limit receipts_in_range (λ n.
          if ltb n (length receipts_in_range)
          then safe_truncate_receipts sort receipts_in_range n
          else receipts_in_range))

  unfoldable pub retrieve_receipts_upto_timestamp :
      ℕ → InMemoryContext → Result (List Stored) Anyhow
  unfolding retrieve_receipts_in_timestamp_range
  retrieve_receipts_upto_timestamp timestamp_ns self =
      retrieve_receipts_in_timestamp_range (λ t. leb t timestamp_ns) none self

unfoldable pub verify_signer : Address → InMemoryContext → Result Bool Anyhow
verify_signer signer_address self =
    ok (map_or self.sender_address false (λ sender. signer_address == sender))

unfoldable pub escrow : Address → InMemoryContext → Result ℕ Anyhow
escrow sender_id self =
    ok_or (lookup sender_id self.sender_escrow_storage)
      (Anyhow.msg "No escrow exists for provided sender ID.")

unfoldable pub increase_escrow : Address → ℕ → InMemoryContext → InMemoryContext
increase_escrow sender_id value self = record self {
  sender_escrow_storage =
      insert sender_id
        (add_u128 (map_or (lookup sender_id self.sender_escrow_storage) 0 (λ v. v)) value)
        self.sender_escrow_storage;
}

unfoldable pub reduce_escrow : Address → ℕ → Exec InMemoryContext Anyhow Unit
reduce_escrow sender_id value self =
    let too_large = Anyhow.msg "Provided value is greater than existing escrow." in
    elim (lookup sender_id self.sender_escrow_storage) [
      | none ↦ (err too_large, self)
      | some current_value ↦
          if leb value current_value
          then (
            ok tt,
            record self {
              sender_escrow_storage =
                  insert sender_id (current_value - value) self.sender_escrow_storage;
            },
          )
          else (err too_large, self)
    ]

-- The context as the manager's adapters.
instance abbrev pub memory_rav_store : RavStore InMemoryContext ReceiptAggregateVoucher
memory_rav_store = record { update_last_rav = update_last_rav }

instance abbrev pub memory_rav_read : RavRead InMemoryContext ReceiptAggregateVoucher
memory_rav_read = record { last_rav = last_rav }

instance abbrev pub memory_receipt_store : ReceiptStore InMemoryContext SignedReceipt
memory_receipt_store = record { store_receipt = store_receipt }

instance abbrev pub memory_receipt_delete : ReceiptDelete InMemoryContext
memory_receipt_delete = record {
  remove_receipts_in_timestamp_range = remove_receipts_in_timestamp_range;
}

abbrev pub memory_receipt_read :
    (List Stored → List Stored) → ReceiptRead InMemoryContext SignedReceipt
memory_receipt_read sort = record {
  retrieve_receipts_in_timestamp_range = retrieve_receipts_in_timestamp_range sort;
}

instance abbrev pub memory_signature_checker : SignatureChecker InMemoryContext
memory_signature_checker = record { verify_signer = verify_signer }
