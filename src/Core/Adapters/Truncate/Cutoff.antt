-- ===== src/Core/Adapters/Truncate/Cutoff.antt =====
-- What `safe_truncate_receipts` keeps, for every way to sort
-- (crates/core/src/manager/adapters/receipt.rs).
use graph_tally.Prelude.{
  ℕ, zero, suc, ◌-◌, ◌≤◌, ◌<◌, ◌≡◌, refl, sym, ◌∙◌, Bool, true, false, not, ◌&&◌, List, [], ◌∷◌,
  some, if◌then◌else◌, leb, ltb, ◌==◌, length, get_elem?, take, retain, All, All-map, count_if,
  count_if-retain, count_if-All, sum_of, arith, Bool-cases, inl, inr, leb-false, leb→le, retain-All,
  retain_none, length-count, length-take, length-retain-le,
}
use graph_tally.Receipt.{WithValueAndTimestamp, ReceiptWithState}
use graph_tally.Core.Adapters.Truncate.{safe_truncate_receipts, timestamp_at}

module _ {T Rcpt : Type 0} ⦃v : WithValueAndTimestamp Rcpt⦄ where
  abbrev pub ts : ReceiptWithState T Rcpt → ℕ
  ts r = v.timestamp_ns r.receipt

  abbrev pub IsSorted : List (ReceiptWithState T Rcpt) → Type 0
  IsSorted [] = Unit
  IsSorted (x ∷ xs) = All (λ y. ts x ≤ ts y) xs × IsSorted xs

  -- The same receipts, each as often.
  abbrev pub SameCounts : List (ReceiptWithState T Rcpt) → List (ReceiptWithState T Rcpt) → Type 0
  SameCounts xs ys = (p : ReceiptWithState T Rcpt → Bool) → count_if p xs ≡ count_if p ys

  -- An item at an index satisfies what all items satisfy.
  All-get :
      (n : ℕ) (xs : List (ReceiptWithState T Rcpt)) (i : ℕ) (x : ReceiptWithState T Rcpt)
      → All (λ y. n ≤ ts y) xs
      → get_elem? xs i ≡ some x
      → n ≤ ts x
  All-get n [] i x h e = absurd (cc e)
  All-get n (y ∷ ys) zero x h e = ground arith
  All-get n (y ∷ ys) (suc i) x h e = All-get n ys i x h.1 e

  -- In a sorted list the items up to an index are no later than the item there.
  take-le :
      (s : List (ReceiptWithState T Rcpt)) (i : ℕ) (x : ReceiptWithState T Rcpt)
      → IsSorted s
      → get_elem? s i ≡ some x
      → All (λ y. ts y ≤ ts x) (take (suc i) s)
  take-le [] i x h e = tt
  take-le (y ∷ ys) zero x h e = (ground arith, tt)
  take-le (y ∷ ys) (suc i) x h e = (All-get (ts y) ys i x h.0 e, take-le ys i x h.1 e)

  -- And the items before the timestamp at an index stand before the index.
  retain-take :
      (s : List (ReceiptWithState T Rcpt)) (i : ℕ) (x : ReceiptWithState T Rcpt)
      → IsSorted s
      → get_elem? s i ≡ some x
      → retain (λ y. ltb (ts y) (ts x)) (take i s) ≡ retain (λ y. ltb (ts y) (ts x)) s
  retain-take [] i x h e = absurd (cc e)
  retain-take (y ∷ ys) zero x h e = sym (
      retain_none (λ z. ltb (ts z) (ts x)) (y ∷ ys)
        (ground arith, All-map (λ z k. ground arith) ys h.0))
  retain-take (y ∷ ys) (suc i) x h e = ground (arith, retain-take ys i x h.1 e)

  get_in_range :
      (s : List (ReceiptWithState T Rcpt)) (i : ℕ)
      → i < length s
      → (x : ReceiptWithState T Rcpt) × (get_elem? s i ≡ some x)
  get_in_range [] i h = absurd (omega arith)
  get_in_range (y ∷ ys) zero h = (y, refl)
  get_in_range (y ∷ ys) (suc i) h = get_in_range ys i (omega arith)

  -- The two retains agree on a list with no item after `last`, when the next one equals it.
  retain-last :
      (xs : List (ReceiptWithState T Rcpt)) (last : ℕ)
      → All (λ y. ts y ≤ last) xs
      → retain (λ r. not (ts r == last)) xs ≡ retain (λ y. ltb (ts y) last) xs
  retain-last [] last h = refl
  retain-last (y ∷ ys) last h = ground (arith, retain-last ys last h.1)

  next-le :
      (s : List (ReceiptWithState T Rcpt)) (i : ℕ) (x y : ReceiptWithState T Rcpt)
      → IsSorted s
      → get_elem? s i ≡ some x
      → get_elem? s (suc i) ≡ some y
      → ts x ≤ ts y
  next-le [] i x y h ex ey = absurd (cc ex)
  next-le (z ∷ zs) zero x y h ex ey =
      let below : ts z ≤ ts y = All-get (ts z) zs zero y h.0 ey in ground arith
  next-le (z ∷ zs) (suc i) x y h ex ey = next-le zs i x y h.1 ex ey

  cut :
      (s : List (ReceiptWithState T Rcpt)) (i : ℕ) (x y : ReceiptWithState T Rcpt)
      → IsSorted s
      → get_elem? s i ≡ some x
      → get_elem? s (suc i) ≡ some y
      → (if ts x == ts y then retain (λ r. not (ts r == ts x)) (take (suc i) s) else take (suc i) s)
        ≡ retain (λ r. ltb (ts r) (ts y)) s
  cut s i x y h ex ey = elim (Bool-cases (ts x == ts y)) [
    | inl same ↦ rw same (
        retain-last (take (suc i) s) (ts x) (take-le s i x h ex)
        ∙ (let e : ts x ≡ ts y = ground arith in rw e (retain-take s (suc i) y h ey)))
    | inr differ ↦ rw differ (
        sym (
          retain-All (λ r. ltb (ts r) (ts y)) (take (suc i) s)
            (let before : ts x < ts y = ground (arith, next-le s i x y h ex ey) in
              All-map (λ z k. ground arith) (take (suc i) s) (take-le s i x h ex)))
        ∙ retain-take s (suc i) y h ey)
  ]

  -- Every timestamp of a list is below this bound.
  All-below_sum : (xs : List (ReceiptWithState T Rcpt)) → All (λ r. ts r < suc (sum_of ts xs)) xs
  All-below_sum [] = tt
  All-below_sum (x ∷ xs) = (omega arith, All-map (λ y k. omega arith) xs (All-below_sum xs))

  module _ (sort : List (ReceiptWithState T Rcpt) → List (ReceiptWithState T Rcpt))
      (sort-IsSorted : (rs : List (ReceiptWithState T Rcpt)) → IsSorted (sort rs))
      (sort-SameCounts : (rs : List (ReceiptWithState T Rcpt)) → SameCounts (sort rs) rs) where
    length-sort : (rs : List (ReceiptWithState T Rcpt)) → length (sort rs) ≡ length rs
    length-sort rs = rw (length-count (sort rs), length-count rs) (sort-SameCounts rs (λ _. true))

    safe_truncate-at :
        (rs : List (ReceiptWithState T Rcpt)) (n : ℕ) (x y : ReceiptWithState T Rcpt)
        → suc n < length rs
        → get_elem? (sort rs) n ≡ some x
        → get_elem? (sort rs) (suc n) ≡ some y
        → safe_truncate_receipts sort rs (suc n) ≡ retain (λ r. ltb (ts r) (ts y)) (sort rs)
    unfolding safe_truncate_receipts
    safe_truncate-at rs n x y h ex ey =
        let over : leb (length rs) (suc n) ≡ false = ground arith in
        let nonzero : (suc n == 0) ≡ false = ground arith in
        let before : suc n - 1 ≡ n = omega arith in
        rw (over, nonzero, before, ex, ey) (cut (sort rs) n x y (sort-IsSorted rs) ex ey)

    -- Past the limit the result is the sorted list up to a timestamp.
    safe_truncate-retain :
        (rs : List (ReceiptWithState T Rcpt)) (limit : ℕ)
        → limit < length rs
        → (cutoff : ℕ) × (safe_truncate_receipts sort rs limit
            ≡ retain (λ r. ltb (ts r) cutoff) (sort rs))
    unfolding safe_truncate_receipts
    safe_truncate-retain rs zero h =
        let over : leb (length rs) 0 ≡ false = ground arith in
        (
          0,
          rw over (
              sym (
                retain_none (λ r. ltb (ts r) 0) (sort rs)
                  (All-map (λ r k. ground arith) (sort rs) (All-below_sum (sort rs))))),
        )
    safe_truncate-retain rs (suc n) h =
        let (x, ex) = get_in_range (sort rs) n (omega (arith, length-sort rs)) in
        let (y, ey) = get_in_range (sort rs) (suc n) (omega (arith, length-sort rs)) in
        (ts y, safe_truncate-at rs n x y h ex ey)

    safe_truncate-short :
        (rs : List (ReceiptWithState T Rcpt)) (limit : ℕ)
        → length rs ≤ limit
        → safe_truncate_receipts sort rs limit ≡ rs
    unfolding safe_truncate_receipts
    safe_truncate-short rs limit h = ground arith

    -- There is a timestamp such that, however the sort orders equal timestamps, the receipts kept
    -- are exactly those before it, each as often: no timestamp is kept in part, and none is
    -- skipped.
    pub safe_truncate-cutoff :
        (rs : List (ReceiptWithState T Rcpt)) (limit : ℕ)
        → (cutoff : ℕ) × ((p : ReceiptWithState T Rcpt → Bool)
            → count_if p (safe_truncate_receipts sort rs limit)
              ≡ count_if (λ r. ltb (ts r) cutoff && p r) rs)
    safe_truncate-cutoff rs limit = elim (Bool-cases (leb (length rs) limit)) [
      | inl fits ↦ (
        suc (sum_of ts rs),
        λ p. rw (safe_truncate-short rs limit (leb→le _ _ fits)) (
            count_if-All p (λ r. ltb (ts r) (suc (sum_of ts rs))) rs
              (All-map (λ r k. ground arith) rs (All-below_sum rs))),
      )
      | inr over ↦
          let (cutoff, e) = safe_truncate-retain rs limit (leb-false _ _ over) in
          (
            cutoff,
            λ p. rw e (
                count_if-retain p (λ r. ltb (ts r) cutoff) (sort rs)
                ∙ sort-SameCounts rs (λ r. ltb (ts r) cutoff && p r)),
          )
    ]

    -- No more receipts than the limit are kept.
    pub length-safe_truncate :
        (rs : List (ReceiptWithState T Rcpt)) (limit : ℕ)
        → length (safe_truncate_receipts sort rs limit) ≤ limit
    unfolding safe_truncate_receipts
    length-safe_truncate rs limit = ground (
      arith,
      length-take limit (sort rs),
      length-retain-le (λ r. not (ts r == timestamp_at sort (sort rs) (limit - 1)))
          (take limit (sort rs)),
    )
