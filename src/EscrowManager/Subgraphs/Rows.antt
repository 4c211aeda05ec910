-- ===== src/EscrowManager/Subgraphs/Rows.antt =====
-- The accounts that a cycle finds for the rows of the subgraph
-- (crates/bin/escrow_manager/src/subgraphs.rs).
use graph_tally.Prelude.{
  ◌≡◌, refl, ◌∙◌, sym, ap, List, [], ◌∷◌, Option, none, some, Result, ok, if◌then◌else◌, ◌==◌,
  arith,
}
use graph_tally.Prelude.Maps.{
  Map, lookup, insert, lookup-insert, HasUniqueKeys, insert-HasUniqueKeys,
}
use graph_tally.Message.{Address}
use graph_tally.EscrowManager.{EscrowAccount}
use graph_tally.EscrowManager.Subgraphs.{
  PaginatedQueryError, EscrowAccountRow, account_of_row, collect_accounts, escrow_accounts,
}

-- The account of the last row of a receiver.
abbrev pub last_row : Address → Option EscrowAccount → List EscrowAccountRow → Option EscrowAccount
last_row a found [] = found
last_row a found (r ∷ rows) =
    last_row a (if r.receiver == a then some (account_of_row r) else found) rows

collect_accounts-lookup :
    (a : Address) (m : Map EscrowAccount) (rows : List EscrowAccountRow)
    → lookup a (collect_accounts m rows) ≡ last_row a (lookup a m) rows
unfolding collect_accounts
collect_accounts-lookup a m [] = refl
collect_accounts-lookup a m (r ∷ rows) =
    collect_accounts-lookup a (insert r.receiver (account_of_row r) m) rows
    ∙ ap (λ found. last_row a found rows) (lookup-insert r.receiver a (account_of_row r) m)

collect_accounts-HasUniqueKeys :
    (m : Map EscrowAccount) (rows : List EscrowAccountRow)
    → HasUniqueKeys m
    → HasUniqueKeys (collect_accounts m rows)
unfolding collect_accounts
collect_accounts-HasUniqueKeys m [] unique = unique
collect_accounts-HasUniqueKeys m (r ∷ rows) unique =
    collect_accounts-HasUniqueKeys (insert r.receiver (account_of_row r) m) rows
      (insert-HasUniqueKeys r.receiver (account_of_row r) m unique)

-- Where the subgraph answers the query of a payer and a collector, every receiver stands once among
-- the accounts, with the account of its last row.
pub escrow_accounts-lookup :
    {E : Type 0}
    (paginated_query : Address → Address → Result (List EscrowAccountRow) (PaginatedQueryError E))
    (payer collector : Address) (rows : List EscrowAccountRow) (accounts : Map EscrowAccount)
    (a : Address)
    → paginated_query payer collector ≡ ok rows
    → escrow_accounts paginated_query payer collector ≡ ok accounts
    → (lookup a accounts ≡ last_row a none rows) × HasUniqueKeys accounts
unfolding escrow_accounts
escrow_accounts-lookup paginated_query payer collector rows accounts a answered found =
    let same : collect_accounts [] rows ≡ accounts =
      ground (arith, rw (escrow_accounts, answered) at found) in
    rw (sym same) (collect_accounts-lookup a [] rows, collect_accounts-HasUniqueKeys [] rows tt)
