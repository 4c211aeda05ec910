-- ===== src/Core/Adapters/Truncate.antt =====
-- `safe_truncate_receipts` (crates/core/src/manager/adapters/receipt.rs).
pub mod Cutoff
use graph_tally.Prelude.{
  ℕ, ◌-◌, Bool, not, List, [], ◌∷◌, Option, if◌then◌else◌, leb, ◌==◌, length, get_elem?, take,
  retain, map_or,
}
use graph_tally.Receipt.{WithValueAndTimestamp, ReceiptWithState}

-- `sort` is `sort_unstable_by_key` on the timestamp: of receipts with one timestamp it may choose
-- any order. The two indices are in range where they are read, as the list is longer than the
-- limit; the `0` is never read.
module _ {T Rcpt : Type 0} ⦃v : WithValueAndTimestamp Rcpt⦄
    (sort : List (ReceiptWithState T Rcpt) → List (ReceiptWithState T Rcpt)) where
  abbrev timestamp_at : List (ReceiptWithState T Rcpt) → ℕ → ℕ
  timestamp_at receipts i = map_or (get_elem? receipts i) 0 (λ r. v.timestamp_ns r.receipt)

  unfoldable pub safe_truncate_receipts :
      List (ReceiptWithState T Rcpt) → ℕ → List (ReceiptWithState T Rcpt)
  safe_truncate_receipts receipts limit =
      if leb (length receipts) limit
      then receipts
      else if limit == 0
      then []
      else let sorted = sort receipts in
        let last_timestamp = timestamp_at sorted (limit - 1) in
        let after_last_timestamp = timestamp_at sorted limit in
        let truncated = take limit sorted in
        if last_timestamp == after_last_timestamp
        then retain (λ r. not (v.timestamp_ns r.receipt == last_timestamp)) truncated
        else truncated
