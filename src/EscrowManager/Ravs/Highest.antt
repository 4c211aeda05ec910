-- ===== src/EscrowManager/Ravs/Highest.antt =====
-- Every allocation has its highest voucher (crates/bin/escrow_manager/src/kafka.rs).
use graph_tally.Prelude.{
  ℕ, ◌≡◌, refl, ap, sym, ◌∙◌, max, ◌&&◌, List, [], ◌∷◌, Option, none, some, Result, ok, err,
  if◌then◌else◌, ◌==◌, contains, arith,
}
use mathlib.Core.Logic.{∥∥₁_elim}
use mathlib.Core.List.{Perm, Permᴰ}
use native.Mathlib.Nat.{ℕ_set}
use graph_tally.Prelude.Maps.{Map, lookup, lookup-insert}
use graph_tally.Message.{Address}
use graph_tally.EscrowManager.Ravs.{
  Record, ParseResult, ParseError, v1, v2, keep_highest, process_record, process_records,
}

abbrev pub higher : Option ℕ → ℕ → Option ℕ
higher none v = some v
higher (some w) v = some (max w v)

-- The highest value that the messages of the accepted signers give an allocation, on top of one.
abbrev pub highest :
    List Address → Address → Option ℕ → List (Result ParseResult ParseError) → Option ℕ
highest signers a best [] = best
highest signers a best (err e ∷ ms) = highest signers a best ms
highest signers a best (ok v1 ∷ ms) = highest signers a best ms
highest signers a best (ok (v2 r) ∷ ms) =
    highest signers a
      (if contains signers r.signer && r.allocation == a then higher best r.value else best) ms

process_record-lookup :
    (signers : List Address) (a : Address) (r : Record) (m : Map ℕ)
    → lookup a (process_record signers (ok (v2 r)) m) ≡ (
        if contains signers r.signer && r.allocation == a
        then higher (lookup a m) r.value
        else lookup a m)
unfolding process_record keep_highest
process_record-lookup signers a r m = ground (arith, lookup-insert r.allocation a r.value m)

-- After any messages an allocation has the highest value that an accepted signer's voucher of the
-- second version gave it, and nothing else changes it.
pub process_records-highest :
    (signers : List Address) (ms : List (Result ParseResult ParseError)) (m : Map ℕ) (a : Address)
    → lookup a (process_records signers ms m) ≡ highest signers a (lookup a m) ms
unfolding process_records
process_records-highest signers [] m a = refl
process_records-highest signers (err e ∷ ms) m a = process_records-highest signers ms m a
process_records-highest signers (ok v1 ∷ ms) m a = process_records-highest signers ms m a
process_records-highest signers (ok (v2 r) ∷ ms) m a =
    process_records-highest signers ms (process_record signers (ok (v2 r)) m) a
    ∙ ap (λ best. highest signers a best ms) (process_record-lookup signers a r m)

-- One message's part, so that two messages can change places.
abbrev best_after : List Address → Address → Option ℕ → Result ParseResult ParseError → Option ℕ
best_after signers a best (err e) = best
best_after signers a best (ok v1) = best
best_after signers a best (ok (v2 r)) =
    if contains signers r.signer && r.allocation == a then higher best r.value else best

highest-step :
    (signers : List Address) (a : Address) (best : Option ℕ) (m : Result ParseResult ParseError)
    (ms : List (Result ParseResult ParseError))
    → highest signers a best (m ∷ ms) ≡ highest signers a (best_after signers a best m) ms
highest-step signers a best (err e) ms = refl
highest-step signers a best (ok v1) ms = refl
highest-step signers a best (ok (v2 r)) ms = refl

higher_swap : (best : Option ℕ) (v w : ℕ) → higher (higher best v) w ≡ higher (higher best w) v
higher_swap none v w = ap some (omega arith)
higher_swap (some u) v w = ap some (omega arith)

best_swap :
    (signers : List Address) (a : Address) (best : Option ℕ) (m n : Result ParseResult ParseError)
    → best_after signers a (best_after signers a best m) n
      ≡ best_after signers a (best_after signers a best n) m
best_swap signers a best (err e) n = refl
best_swap signers a best (ok v1) n = refl
best_swap signers a best (ok (v2 r)) (err e) = refl
best_swap signers a best (ok (v2 r)) (ok v1) = refl
best_swap signers a best (ok (v2 r)) (ok (v2 q)) = ground (arith, higher_swap best r.value q.value)

highest-perm :
    (signers : List Address) (a : Address) (best : Option ℕ)
    {ms ns : List (Result ParseResult ParseError)}
    → Permᴰ ms ns
    → highest signers a best ms ≡ highest signers a best ns
highest-perm signers a best Permᴰ.nil = refl
highest-perm signers a best (Permᴰ.cons {a = m} {b = n} {l₁ = xs} {l₂ = ys} e p) = rw e (
    highest-step signers a best n xs
    ∙ highest-perm signers a (best_after signers a best n) p
    ∙ sym (highest-step signers a best n ys))
highest-perm signers a best (Permᴰ.swap {a = m} {b = n} {a' = l} {b' = k} {l = xs} e f) =
    rw (e, f)
      (highest-step signers a best k (l ∷ xs)
        ∙ highest-step signers a (best_after signers a best k) l xs
        ∙ ap (λ b. highest signers a b xs) (best_swap signers a best k l)
        ∙ sym (highest-step signers a (best_after signers a best l) k xs)
        ∙ sym (highest-step signers a best l (k ∷ xs)))
highest-perm signers a best (Permᴰ.trans p q) =
    highest-perm signers a best p ∙ highest-perm signers a best q

best-set : IsSet (Option ℕ)
best-set = hlevel ℕ_set

-- The messages may be processed in any order: every allocation ends with the same value.
pub process_records-perm :
    (signers : List Address) {ms ns : List (Result ParseResult ParseError)} (m : Map ℕ)
    (a : Address)
    → Perm ms ns
    → lookup a (process_records signers ms m) ≡ lookup a (process_records signers ns m)
process_records-perm signers {ms} {ns} m a p =
    process_records-highest signers ms m a
    ∙ ∥∥₁_elim p (best-set (highest signers a (lookup a m) ms) (highest signers a (lookup a m) ns))
        (highest-perm signers a (lookup a m))
    ∙ sym (process_records-highest signers ns m a)
