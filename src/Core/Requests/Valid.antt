-- ===== src/Core/Requests/Valid.antt =====
-- What a successful request for a voucher holds (crates/core/src/manager/core.rs:
-- collect_receipts, create_rav_request).
use graph_tally.Prelude.{
  ℕ, ◌+◌, ◌≤◌, ◌≡◌, refl, Bool, true, false, not, List, [], ◌∷◌, ◌++◌, map, ok, map_err,
  map_err-eq-ok, ◌>>=◌, >>=-eq-ok, retain, All, All-map, All-retain, All-both, contains,
  All-retain_of, All-map_of, count_if, count_if_zero, count_if_none, count_if-split,
  count_if-append, count_if-map, arith, Bool-cases, inl, inr, leb, leb→le,
}
use graph_tally.Receipt.{
  WithValueAndTimestamp, WithUniqueId, Checking, Failed, ReceiptWithState, perform_checks,
  new_receipt, perform_state_error, ReceiptCheck,
}
use graph_tally.Receipt.Checks.{unique_check_batch}
use graph_tally.Receipt.Checks.Timestamp.{in_time, too_early, timestamp_check_batch-split}
use graph_tally.Receipt.Checks.Unique.{IsUnique, id_of, passed-IsUnique, unique_check_batch-first}
use graph_tally.Core.{Error}
use graph_tally.Core.Requests.{Manager, Sorted, check_retrieved, finalize_all}
use graph_tally.Core.Requests.Collect.{sorted_as, finalize_all-split, passes, as_checked}

checking_only : (c : Checking) → Checking.checking ≡ c
checking_only Checking.checking = refl

new_receipt-eq : {Rcpt : Type 0} (r : ReceiptWithState Checking Rcpt) → new_receipt r.receipt ≡ r
unfolding new_receipt
new_receipt-eq r = λ i. record { receipt = r.receipt; state = checking_only r.state i }

module _ {Ctx Rcpt : Type 0} (ctx : Ctx) (checks : List (ReceiptCheck Ctx Rcpt)) where
  passes-new :
      (r : ReceiptWithState Checking Rcpt)
      → passes ctx checks r ≡ true
      → perform_checks ctx checks (new_receipt r.receipt) ≡ ok tt
  passes-new r h = rw new_receipt-eq (ground arith)

  module _ ⦃u : WithUniqueId Rcpt⦄ where
    contains-retain :
        (a : ℕ) (rs : List (ReceiptWithState Checking Rcpt))
        → contains (map id_of rs) a ≡ false
        → contains (map id_of (map (as_checked ctx checks) (retain (passes ctx checks) rs))) a
          ≡ false
    contains-retain a [] h = refl
    contains-retain a (r ∷ rs) h = ground (arith, contains-retain a rs)

    retain-IsUnique :
        (rs : List (ReceiptWithState Checking Rcpt))
        → IsUnique (map id_of rs)
        → IsUnique (map id_of (map (as_checked ctx checks) (retain (passes ctx checks) rs)))
    retain-IsUnique [] h = tt
    retain-IsUnique (r ∷ rs) h = elim (Bool-cases (passes ctx checks r)) [
      | inl e ↦ rw e (contains-retain (id_of r) rs h.0, retain-IsUnique rs h.1)
      | inr e ↦ rw e (retain-IsUnique rs h.1)
    ]

module _ {Ctx Rcpt : Type 0} ⦃v : WithValueAndTimestamp Rcpt⦄ ⦃u : WithUniqueId Rcpt⦄
    (manager : Manager Ctx Rcpt) (ctx : Ctx) (min : ℕ) where
  -- The stages from the retrieved receipts on: those of each identity's first that are in time,
  -- and the repeated ones.
  pub record IsChecked (retrieved : List (ReceiptWithState Checking Rcpt)) (out : Sorted Rcpt)
      : Type 0 where
    pub unique : List (ReceiptWithState Checking Rcpt)
    pub repeated : List (ReceiptWithState Failed Rcpt)
    pub made_unique : unique_check_batch (retain (in_time min) retrieved) ≡ ok (unique, repeated)
    pub sorted :
        out
        ≡ sorted_as ctx manager.checks
            ([], map (too_early min) (retain (λ r. not (in_time min r)) retrieved) ++ repeated)
            unique

  pub check_retrieved-IsChecked :
      (retrieved : List (ReceiptWithState Checking Rcpt)) (out : Sorted Rcpt)
      → check_retrieved manager ctx min retrieved ≡ ok out
      → IsChecked retrieved out
  unfolding check_retrieved
  check_retrieved-IsChecked retrieved out h =
      let late = map (too_early min) (retain (λ r. not (in_time min r)) retrieved) in
      let split : (map_err Error.signature_error
              (unique_check_batch (retain (in_time min) retrieved))
            >>= λ p. finalize_all ctx manager.checks ([], late ++ p.1) p.0)
          ≡ ok out =
        rw (timestamp_check_batch-split min retrieved) at h in
      let ((unique, repeated), e, rest) =
        >>=-eq-ok
          (map_err Error.signature_error (unique_check_batch (retain (in_time min) retrieved)))
          (λ p. finalize_all ctx manager.checks ([], late ++ p.1) p.0) split in
      record {
        unique = unique;
        repeated = repeated;
        made_unique = map_err-eq-ok Error.signature_error _ e;
        sorted = finalize_all-split ctx manager.checks ([], late ++ repeated) unique out rest;
      }

  module _ (retrieved : List (ReceiptWithState Checking Rcpt)) (out : Sorted Rcpt)
      (c : IsChecked retrieved out) where
    unique_in_time : All (λ r. in_time min r ≡ true) c.unique
    unique_in_time =
        let late : Rcpt → Bool = λ r. not (leb min (v.timestamp_ns r)) in
        let none_late =
          count_if_none (λ r. late r.receipt) (retain (in_time min) retrieved)
            (All-map (λ r e. ground arith) _ (All-retain (in_time min) retrieved)) in
        let counted =
          (unique_check_batch-first (retain (in_time min) retrieved) c.unique c.repeated
              c.made_unique).1
            late in
        All-map (λ r e. ground arith) c.unique
          (count_if_zero (λ r. late r.receipt) c.unique (omega arith))

    -- The receipts to aggregate are in time and pass every check.
    pub IsChecked-passes :
        All
          (λ r.
            (min ≤ v.timestamp_ns r.receipt)
            × (perform_checks ctx manager.checks (new_receipt r.receipt) ≡ ok tt))
          out.0
    IsChecked-passes =
        let kept = retain (passes ctx manager.checks) c.unique in
        rw c.sorted (
          All-map_of
            (λ r.
              (min ≤ v.timestamp_ns r.receipt)
              × (perform_checks ctx manager.checks (new_receipt r.receipt) ≡ ok tt))
            (as_checked ctx manager.checks) kept
            (All-map (λ r h. (leb→le _ _ h.0, passes-new ctx manager.checks r h.1)) kept
              (All-both (λ r. in_time min r ≡ true) (λ r. passes ctx manager.checks r ≡ true) kept
                (All-retain_of (λ r. in_time min r ≡ true) (passes ctx manager.checks) c.unique
                  unique_in_time)
                (All-retain (passes ctx manager.checks) c.unique))))

    -- No identity stands twice among the receipts to aggregate.
    pub IsChecked-IsUnique : IsUnique (map id_of out.0)
    IsChecked-IsUnique = rw c.sorted (
        retain-IsUnique ctx manager.checks c.unique
          (passed-IsUnique (retain (in_time min) retrieved) c.unique c.repeated c.made_unique))

    -- No receipt is lost: each is among the valid or the invalid ones, as often as it was retrieved.
    pub IsChecked-counts :
        (p : Rcpt → Bool)
        → count_if (λ r. p r.receipt) out.0 + count_if (λ r. p r.receipt) out.1
          ≡ count_if (λ r. p r.receipt) retrieved
    unfolding perform_state_error
    IsChecked-counts p =
        let counted =
          (unique_check_batch-first (retain (in_time min) retrieved) c.unique c.repeated
              c.made_unique).1
            p in
        rw c.sorted (
          simp (count_if-append, count_if-map)
            (omega (
              arith,
              counted,
              count_if-split (λ r. p r.receipt) (in_time min) retrieved,
              count_if-split (λ r. p r.receipt) (passes ctx manager.checks) c.unique,
            )))
