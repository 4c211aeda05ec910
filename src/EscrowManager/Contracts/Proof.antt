-- ===== src/EscrowManager/Contracts/Proof.antt =====
-- The message that authorizes a signer says what it authorizes
-- (crates/bin/escrow_manager/src/contracts.rs: authorize_signer).
use graph_tally.Prelude.{
  ℕ, zero, suc, ◌+◌, ◌*◌, ◌/◌, ◌%◌, ◌^◌, ◌<◌, ◌≡◌, refl, ap, sym, ◌∙◌, List, [], ◌∷◌, ◌++◌, length,
  length-append, arith,
}
use graph_tally.EscrowManager.Contracts.{Contracts, be_bytes, tag, proof_message}

length-be_bytes : (width n : ℕ) → length (be_bytes width n) ≡ width
unfolding be_bytes
length-be_bytes zero n = refl
length-be_bytes (suc width) n = omega (
  arith,
  length-append (be_bytes width (n / 256)) (n % 256 ∷ []),
  length-be_bytes width (n / 256),
)

read_be : ℕ → List ℕ → ℕ
read_be acc [] = acc
read_be acc (b ∷ bs) = read_be (acc * 256 + b) bs

read_be-append : (acc b : ℕ) (xs : List ℕ) → read_be acc (xs ++ b ∷ []) ≡ read_be acc xs * 256 + b
unfolding read_be
read_be-append acc b [] = refl
read_be-append acc b (x ∷ xs) = read_be-append (acc * 256 + x) b xs

below : ℕ → ℕ
below zero = 1
below (suc width) = 256 * below width

read_be-be_bytes : (width n : ℕ) → n < below width → read_be 0 (be_bytes width n) ≡ n
unfolding be_bytes read_be below
read_be-be_bytes zero n h = omega arith
read_be-be_bytes (suc width) n h = omega (
  arith,
  read_be-append 0 (n % 256) (be_bytes width (n / 256)),
  read_be-be_bytes width (n / 256) (omega arith),
)

be_bytes-injective :
    (width m n : ℕ)
    → m < below width
    → n < below width
    → be_bytes width m ≡ be_bytes width n
    → m ≡ n
be_bytes-injective width m n small_m small_n h =
    omega
      (arith, read_be-be_bytes width m small_m, read_be-be_bytes width n small_n, ap (read_be 0) h)

in_word : (n : ℕ) → n < 2 ^ 256 → n < below 32
unfolding below
in_word n h = h

in_address : (n : ℕ) → n < 2 ^ 160 → n < below 20
unfolding below
in_address n h = h

-- Parts of one length can be told apart.
split_same :
    (xs ys us vs : List ℕ) → length xs ≡ length us → xs ++ ys ≡ us ++ vs → (xs ≡ us) × (ys ≡ vs)
split_same [] ys [] vs l h = (refl, h)
split_same [] ys (u ∷ us) vs l h = absurd (omega arith)
split_same (x ∷ xs) ys [] vs l h = absurd (omega arith)
split_same (x ∷ xs) ys (u ∷ us) vs l h =
    let (front, back) = split_same xs ys us vs (omega arith) (ground arith) in
    (ground (arith, front), back)

bytes_split :
    (width m n : ℕ) (ys vs : List ℕ)
    → m < below width
    → n < below width
    → be_bytes width m ++ ys ≡ be_bytes width n ++ vs
    → (m ≡ n) × (ys ≡ vs)
bytes_split width m n ys vs small_m small_n h =
    let (front, back) =
      split_same (be_bytes width m) ys (be_bytes width n) vs
        (length-be_bytes width m ∙ sym (length-be_bytes width n)) h in
    (be_bytes-injective width m n small_m small_n front, back)

-- A collector's and a payer's address have 20 bytes.
pub record HasAddresses (contracts : Contracts) : Type 0 where
  pub collector_fits : contracts.graph_tally_collector < 2 ^ 160
  pub payer_fits : contracts.payer < 2 ^ 160

-- Two messages that `authorize_signer` builds for its proofs, from addresses of 20 bytes and
-- numbers of 32, are the same only when they are for the same chain, the same collector, the same
-- deadline and the same payer. This is not so of the script in the README of the escrow manager,
-- which leaves the collector out of what it signs.
pub proof_message-injective :
    (c d : Contracts) (chain chain' deadline deadline' : ℕ)
    → HasAddresses c
    → HasAddresses d
    → chain < 2 ^ 256
    → chain' < 2 ^ 256
    → deadline < 2 ^ 256
    → deadline' < 2 ^ 256
    → proof_message c chain deadline ≡ proof_message d chain' deadline'
    → (chain ≡ chain')
      × (c.graph_tally_collector ≡ d.graph_tally_collector)
      × (deadline ≡ deadline')
      × (c.payer ≡ d.payer)
unfolding proof_message
proof_message-injective c d chain chain' deadline deadline' fits_c fits_d h h' k k' same =
    let (same_chain, s₁) =
      bytes_split 32 chain chain' _ _ (in_word chain h) (in_word chain' h') same in
    let (same_collector, s₂) =
      bytes_split 20 c.graph_tally_collector d.graph_tally_collector _ _
        (in_address _ (HasAddresses.collector_fits fits_c))
        (in_address _ (HasAddresses.collector_fits fits_d)) s₁ in
    let (_, s₃) = split_same tag _ tag _ refl s₂ in
    let (same_deadline, s₄) =
      bytes_split 32 deadline deadline' _ _ (in_word deadline k) (in_word deadline' k') s₃ in
    let payers =
      be_bytes-injective 20 c.payer d.payer (in_address _ (HasAddresses.payer_fits fits_c))
        (in_address _ (HasAddresses.payer_fits fits_d)) s₄ in
    (same_chain, same_collector, same_deadline, payers)
