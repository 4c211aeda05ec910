-- ===== src/Message.antt =====
-- EIP-712 signed messages (crates/eip712_message/src/lib.rs). Hashing, signing and recovery are
-- the alloy crate's: they are the fields of `Alloy` and `SolStruct`, and the laws that the code
-- relies on are named apart.
pub mod Recovery
use graph_tally.Prelude.{ℕ, ◌≡◌, List, String, Option, none, some, Result, ok, err, ok_or, ◌>>=◌}

-- 20-byte addresses, 32-byte words, private keys and signatures are only compared and handed on.
abbrev pub Address : Type 0
Address = ℕ

abbrev pub FixedBytes : Type 0
FixedBytes = ℕ

abbrev pub Bytes : Type 0
Bytes = List ℕ

abbrev pub PrivateKeySigner : Type 0
PrivateKeySigner = ℕ

abbrev pub Signature : Type 0
Signature = ℕ

pub record Eip712Domain : Type 0 where
  pub name : String
  pub version : String
  pub chain_id : ℕ
  pub verifying_contract : Address

-- What `sol!` derives for a struct.
pub record SolStruct (M : Type 0) : Type 0 where
  pub eip712_signing_hash : M → Eip712Domain → FixedBytes
  pub eip712_hash_struct : M → FixedBytes

-- The cryptography of the alloy crate. `none` is its error.
pub record Alloy : Type 0 where
  pub address : PrivateKeySigner → Address
  pub sign_hash_sync : PrivateKeySigner → FixedBytes → Option Signature
  pub recover_address_from_prehash : Signature → FixedBytes → Option Address
  pub normalized_s : Signature → Signature
  pub as_bytes : Signature → ℕ

pub data Eip712Error : Type 0 where
  wallet_error signature_error : Eip712Error

pub record Eip712SignedMessage (M : Type 0) : Type 0 where
  pub message : M
  pub signature : Signature

module _ (alloy : Alloy) where
  -- The low-S form first, so that the two forms of one signature have the same bytes.
  unfoldable pub get_signature_bytes : Signature → ℕ
  get_signature_bytes signature = alloy.as_bytes (alloy.normalized_s signature)

  module _ {M : Type 0} ⦃sol : SolStruct M⦄ where
    unfoldable pub new_signed :
        Eip712Domain → M → PrivateKeySigner → Result (Eip712SignedMessage M) Eip712Error
    new_signed domain_separator message signing_wallet = do
      let recovery_message_hash = sol.eip712_signing_hash message domain_separator
      signature ←
          ok_or (alloy.sign_hash_sync signing_wallet recovery_message_hash) Eip712Error.wallet_error
      ok (record { message = message; signature = signature })

    unfoldable pub recover_signer :
        Eip712SignedMessage M → Eip712Domain → Result Address Eip712Error
    recover_signer signed domain_separator = do
      let recovery_message_hash = sol.eip712_signing_hash signed.message domain_separator
      ok_or (alloy.recover_address_from_prehash signed.signature recovery_message_hash)
          Eip712Error.signature_error

-- `Eip712SignedMessage::unique_hash`: the key leaves the signature out.
unfoldable pub unique_hash : {M : Type 0} ⦃sol : SolStruct M⦄ → Eip712SignedMessage M → FixedBytes
unique_hash ⦃sol⦄ signed = sol.eip712_hash_struct signed.message

-- What the code relies on: a signature that a key made recovers to the key's address.
abbrev pub SignRecovers : Alloy → Type 0
SignRecovers alloy =
    (key : PrivateKeySigner) (hash : FixedBytes) (signature : Signature)
    → alloy.sign_hash_sync key hash ≡ some signature
    → alloy.recover_address_from_prehash signature hash ≡ some (alloy.address key)
