-- ===== src/EscrowManager/Subgraphs.antt =====
-- The queries of the subgraph (crates/bin/escrow_manager/src/subgraphs.rs). The client and its
-- pages are parameters: a query is answered with its rows or an error.
pub mod Rows
use graph_tally.Prelude.{ℕ, List, [], ◌∷◌, ◌++◌, map, Option, none, some, Result, ok, err}
use graph_tally.Prelude.Maps.{Map, insert}
use graph_tally.Message.{Address}
use graph_tally.EscrowManager.{EscrowAccount}
use graph_tally.EscrowManager.Cycle.{Allocation}

-- `PaginatedQueryError`: the response that is empty, and the others.
pub data PaginatedQueryError (E : Type 0) : Type 0 where
  empty_response : PaginatedQueryError E
  other : E → PaginatedQueryError E

-- `Data` and `Payer`: no payer is no signers.
unfoldable pub authorized_signers :
    {E : Type 0} → (Address → Result (Option (List Address)) E) → Address → Result (List Address) E
authorized_signers query payer = elim (query payer) [
  | err e ↦ err e
  | ok none ↦ ok []
  | ok (some signers) ↦ ok signers
]

pub record EscrowAccountRow : Type 0 where
  pub balance : ℕ
  pub total_amount_thawing : ℕ
  pub thaw_end_timestamp : ℕ
  pub receiver : Address

abbrev pub account_of_row : EscrowAccountRow → EscrowAccount
account_of_row a = record {
  balance = a.balance;
  thawing = a.total_amount_thawing;
  thaw_end_timestamp = a.thaw_end_timestamp;
}

-- `collect` into a map: a later row of a receiver replaces the earlier one.
unfoldable pub collect_accounts : Map EscrowAccount → List EscrowAccountRow → Map EscrowAccount
collect_accounts m [] = m
collect_accounts m (a ∷ rows) = collect_accounts (insert a.receiver (account_of_row a) m) rows

-- The accounts of a payer and a collector; an empty response is no accounts.
unfoldable pub escrow_accounts :
    {E : Type 0}
    → (Address → Address → Result (List EscrowAccountRow) (PaginatedQueryError E))
    → Address
    → Address
    → Result (Map EscrowAccount) (PaginatedQueryError E)
unfolding collect_accounts
escrow_accounts paginated_query payer collector = elim (paginated_query payer collector) [
  | ok rows ↦ ok (collect_accounts [] rows)
  | err empty_response ↦ ok []
  | err (other e) ↦ err (other e)
]

-- `Allocation_`
pub record AllocationRow : Type 0 where
  pub id : Address
  pub indexer_id : Address

-- Here an empty response is an error.
unfoldable pub active_allocations :
    {E : Type 0}
    → Result (List AllocationRow) (PaginatedQueryError E)
    → Result (List Allocation) (PaginatedQueryError E)
active_allocations (ok rows) =
    ok (map (λ (a : AllocationRow). record { id = a.id; indexer = a.indexer_id }) rows)
active_allocations (err e) = err e
