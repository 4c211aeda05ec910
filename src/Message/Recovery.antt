-- ===== src/Message/Recovery.antt =====
-- What signing and recovery give together.
use graph_tally.Prelude.{◌≡◌, ok, arith}
use graph_tally.Message.{
  Alloy, SolStruct, Eip712Domain, Eip712SignedMessage, PrivateKeySigner, SignRecovers, new_signed,
  recover_signer,
}

module _ (alloy : Alloy) {M : Type 0} ⦃sol : SolStruct M⦄ where
  -- A signed message carries the message that was given.
  pub new_signed-message :
      (domain : Eip712Domain) (message : M) (key : PrivateKeySigner)
      (signed : Eip712SignedMessage M)
      → new_signed alloy domain message key ≡ ok signed
      → signed.message ≡ message
  unfolding new_signed
  new_signed-message domain message key signed h = ground arith

  -- The signer that is recovered from a message is the one that signed it.
  pub recover_signer-new_signed :
      SignRecovers alloy
      → (domain : Eip712Domain) (message : M) (key : PrivateKeySigner)
        (signed : Eip712SignedMessage M)
      → new_signed alloy domain message key ≡ ok signed
      → recover_signer alloy signed domain ≡ ok (alloy.address key)
  unfolding new_signed recover_signer
  recover_signer-new_signed law domain message key signed h =
      ground (arith, law key (sol.eip712_signing_hash message domain) signed.signature)
