-- ===== src/EscrowManager/Receipts/Messages/Debts.antt =====
-- From the messages of the queries to the debts that a snapshot shows
-- (crates/bin/escrow_manager/src/kafka.rs: the module receipts).
use graph_tally.Prelude.{
  ℕ, ◌+◌, ◌-◌, ◌%◌, ◌≡◌, refl, ◌∙◌, ap, Bool, true, false, List, [], ◌∷◌, ◌++◌, Option, some, leb,
  arith,
}
use mathlib.Core.Logic.{∥∥₁_elim}
use mathlib.Core.List.{Perm, Permᴰ}
use native.Mathlib.Nat.{ℕ_set}
use graph_tally.Prelude.Words.{u128_mod}
use graph_tally.Message.{Address, Bytes}
use graph_tally.EscrowManager.Receipts.{second_ns, Update, snapshot, hourly_timestamp}
use graph_tally.EscrowManager.Receipts.Window.{shown}
use graph_tally.EscrowManager.Receipts.Task.{spawn, receive, receive_all}
use graph_tally.EscrowManager.Receipts.Task.Kept.{fees_after}
use graph_tally.EscrowManager.Receipts.Task.Shown.{received, IsOrdered, receive_all-shown}
use graph_tally.EscrowManager.Receipts.Messages.{ClientQuery, QueryMessage, consume}
use graph_tally.EscrowManager.Receipts.Messages.Counted.{message_fees, consume-counted}

-- The order of the updates does not matter to the fees.
fees_swap :
    (cut : ℕ) (a : Address) {xs ys : List Update}
    → Permᴰ xs ys
    → fees_after cut a xs ≡ fees_after cut a ys
fees_swap cut a Permᴰ.nil = refl
fees_swap cut a (Permᴰ.cons e p) = ground (arith, e, fees_swap cut a p)
fees_swap cut a (Permᴰ.swap e f) = ground (arith, e, f)
fees_swap cut a (Permᴰ.trans p q) = fees_swap cut a p ∙ fees_swap cut a q

fees_after-perm :
    (cut : ℕ) (a : Address) {xs ys : List Update}
    → Perm xs ys
    → fees_after cut a xs ≡ fees_after cut a ys
fees_after-perm cut a {xs} {ys} p =
    ∥∥₁_elim p (ℕ_set (fees_after cut a xs) (fees_after cut a ys)) (fees_swap cut a)

module _ {F : Type 0} (decode : Bytes → Option (ClientQuery F))
    (from_slice : Bytes → Option Address) (wei_of : F → ℕ) (in_range : ℕ → Bool)
    (signers : List Address) where
  -- When the task sends a snapshot, and its rounds have received, in whatever order, the updates of
  -- some messages none of which panicked, the snapshot shows for each indexer the sum in `u128` of
  -- the fees of its queries in the messages with an accepted signer, from the hours that are later
  -- than the one in which the window starts.
  pub consume-shown :
      (msgs : List QueryMessage) (rounds : List (ℕ × List Update)) (window start now : ℕ)
      (buffer : List Update) (a : Address)
      → (consume decode from_slice wei_of in_range signers msgs).panicked ≡ false
      → Perm
          (received rounds ++ buffer)
          (consume decode from_slice wei_of in_range signers msgs).updates
      → IsOrdered start (rounds ++ (now, buffer) ∷ [])
      → leb ((receive_all rounds (spawn window start)).last_snapshot + second_ns) now ≡ true
      → ((receive buffer now (receive_all rounds (spawn window start))).sent
          ≡ some (snapshot (receive buffer now (receive_all rounds (spawn window start))).db))
        × (shown a (receive buffer now (receive_all rounds (spawn window start))).db
            ≡ message_fees decode from_slice wei_of signers a in_range
                (hourly_timestamp (now - window))
                msgs
              % u128_mod)
  consume-shown msgs rounds window start now buffer a fine order_ ordered due =
      let cut = hourly_timestamp (now - window) in
      let sent = receive_all-shown rounds window start now buffer a ordered due in
      let counted = consume-counted decode from_slice wei_of signers a in_range cut msgs fine in
      (sent.0, sent.1 ∙ ap (λ n. n % u128_mod) (fees_after-perm cut a order_ ∙ counted))
