-- ===== src/EscrowManager/Contracts.antt =====
-- The calls of the contracts (crates/bin/escrow_manager/src/contracts.rs). The chain and the
-- contracts are parameters: what is modelled is what is sent to them and what is made of their
-- answers.
pub mod Proof
use graph_tally.Prelude.{
  ℕ, zero, suc, ◌+◌, ◌-◌, ◌/◌, ◌%◌, min, List, [], ◌∷◌, ◌++◌, map, Option, none, some, Result, ok,
  err, ok_or, map_err, ◌>>=◌,
}
use graph_tally.Prelude.Words.{u64_mod, u128_mod, add_u64}
use graph_tally.Message.{Address, FixedBytes, PrivateKeySigner, Signature}
use graph_tally.EscrowManager.Cycle.{Call, thaw_many, deposit_many, withdraw_many}

pub record Contracts : Type 0 where
  pub payments_escrow : Address
  pub graph_tally_collector : Address
  pub payer : Address

-- A call of the escrow contract, by its arguments.
pub data EscrowCall : Type 0 where
  -- collector, receiver, amount
  deposit thaw : Address → Address → ℕ → EscrowCall
  -- collector, receiver
  withdraw : Address → Address → EscrowCall

-- An error of the chain, or a receipt without a block.
pub data CallError (E : Type 0) : Type 0 where
  of_chain : E → CallError E
  invalid_receipt : CallError E
  sign_proof : CallError E

-- An unlimited approval does not fit in `u128`.
unfoldable pub saturated : ℕ → ℕ
saturated allowance = min allowance (u128_mod - 1)

module _ {E : Type 0} (multicall : List EscrowCall → Result (Option ℕ) E)
    (contracts : Contracts) where
  -- One transaction, and the block of its receipt.
  abbrev pub send_many : List EscrowCall → Result ℕ (CallError E)
  send_many calls = do
    block_number ← map_err of_chain (multicall calls)
    ok_or block_number invalid_receipt

  unfoldable pub send_deposits : List (Address × ℕ) → Result ℕ (CallError E)
  send_deposits deposits =
      send_many
        (map (λ (d : Address × ℕ). deposit contracts.graph_tally_collector d.0 d.1) deposits)

  unfoldable pub send_thaws : List (Address × ℕ) → Result ℕ (CallError E)
  send_thaws thaws =
      send_many (map (λ (t : Address × ℕ). thaw contracts.graph_tally_collector t.0 t.1) thaws)

  unfoldable pub send_withdrawals : List Address → Result ℕ (CallError E)
  send_withdrawals receivers =
      send_many (map (λ (r : Address). withdraw contracts.graph_tally_collector r) receivers)

  -- What a cycle calls.
  unfoldable pub answer_of : Call → Result ℕ (CallError E)
  unfolding send_deposits send_thaws send_withdrawals
  answer_of (thaw_many thaws) = send_thaws thaws
  answer_of (deposit_many deposits) = send_deposits deposits
  answer_of (withdraw_many receivers) = send_withdrawals receivers

-- `to_be_bytes`, for a width.
unfoldable pub be_bytes : ℕ → ℕ → List ℕ
be_bytes zero n = []
be_bytes (suc width) n = be_bytes width (n / 256) ++ n % 256 ∷ []

-- "authorizeSignerProof"
abbrev pub tag : List ℕ
tag =
    97 ∷ 117 ∷ 116 ∷ 104 ∷ 111 ∷ 114 ∷ 105 ∷ 122 ∷ 101 ∷ 83 ∷ 105 ∷ 103 ∷ 110 ∷ 101 ∷ 114 ∷ 80 ∷ 114
    ∷ 111 ∷ 111 ∷ 102 ∷ []

-- The packed message: the chain, the collector, the tag, the deadline and the payer.
unfoldable pub proof_message : Contracts → ℕ → ℕ → List ℕ
unfolding be_bytes
proof_message contracts chain_id deadline =
    be_bytes 32 chain_id
    ++ (be_bytes 20 contracts.graph_tally_collector
        ++ (tag ++ (be_bytes 32 deadline ++ be_bytes 20 contracts.payer)))

-- What authorizes a signer: the call's arguments.
pub record Authorization : Type 0 where
  pub signer : Address
  pub deadline : ℕ
  pub proof : Signature

module _ {E : Type 0} (keccak256 : List ℕ → FixedBytes)
    (sign_message_sync : PrivateKeySigner → FixedBytes → Option Signature)
    (address : PrivateKeySigner → Address) (authorize : Authorization → Result (Unit {0}) E)
    (contracts : Contracts) where
  -- The chain's id and the clock in seconds come from outside; the deadline is a minute later.
  unfoldable pub authorize_signer :
      Result ℕ E → ℕ → PrivateKeySigner → Result (Unit {0}) (CallError E)
  unfolding proof_message
  authorize_signer get_chain_id now signer = do
    chain_id ← map_err of_chain get_chain_id
    let deadline = add_u64 now 60
    let hash = keccak256 (proof_message contracts chain_id deadline)
    signature ← ok_or (sign_message_sync signer hash) sign_proof
    map_err of_chain
        (authorize (record { signer = address signer; deadline = deadline; proof = signature }))
