-- ===== src/Tests/Base.antt =====
-- Toy cryptography, and two receipts of one payer (the tests of
-- crates/bin/aggregator/src/aggregator.rs use random keys instead).
use graph_tally.Prelude.{ℕ, ◌+◌, ◌-◌, ◌*◌, ◌≡◌, ap, List, [], ◌∷◌, some, arith}
use graph_tally.Message.{Alloy, Address, PrivateKeySigner, SolStruct, Eip712Domain, SignRecovers}
use graph_tally.Graph.{Receipt, ReceiptAggregateVoucher, SignedReceipt, SignedRav}
use graph_tally.Core.{graph_tally_eip712_domain}
use graph_tally.Aggregator.Signers.{SignerRegistry}

-- The signature of a hash holds the hash and the key.
abbrev pub toy : Alloy
toy = record {
  address = λ key. key + 1000;
  sign_hash_sync = λ key hash. some (hash * 100 + key);
  recover_address_from_prehash = λ signature hash. some (signature - hash * 100 + 1000);
  normalized_s = λ s. s;
  as_bytes = λ s. s;
}

pub toy-SignRecovers : SignRecovers toy
toy-SignRecovers key hash signature h =
    let same : hash * 100 + key ≡ signature = ground arith in ap some (omega (arith, same))

instance abbrev pub receipt_sol : SolStruct Receipt
receipt_sol = record {
  eip712_signing_hash = λ r _. r.nonce + r.timestamp_ns;
  eip712_hash_struct = λ r. r.nonce;
}

instance abbrev pub rav_sol : SolStruct ReceiptAggregateVoucher
rav_sol = record {
  eip712_signing_hash = λ r _. r.value_aggregate + r.timestamp_ns;
  eip712_hash_struct = λ r. r.value_aggregate;
}

abbrev pub domain : Eip712Domain
domain = graph_tally_eip712_domain 1 17

-- Payer 7 signs with key 1, whose address is 1001, and accepts 1002, the address of key 2.
abbrev pub keys : List (Address × PrivateKeySigner)
keys = (7, 1) ∷ []

abbrev pub extra : List (Address × Address)
extra = (7, 1002) ∷ []

abbrev pub registry : SignerRegistry
registry = (7, record { signing_key = 1; accepted_signers = 1002 ∷ 1001 ∷ [] }) ∷ []

abbrev pub receipt : ℕ → ℕ → ℕ → Receipt
receipt t n v = record {
  collection_id = 3;
  payer = 7;
  data_service = 4;
  service_provider = 5;
  timestamp_ns = t;
  nonce = n;
  value = v;
}

-- Signed with key 2.
abbrev pub signed : ℕ → ℕ → ℕ → SignedReceipt
signed t n v = record { message = receipt t n v; signature = (n + t) * 100 + 2 }

abbrev pub first_receipt : SignedReceipt
first_receipt = signed 5 1 10

abbrev pub second_receipt : SignedReceipt
second_receipt = signed 6 2 20

abbrev pub third_receipt : SignedReceipt
third_receipt = signed 8 3 40

abbrev pub voucher : ℕ → ℕ → ReceiptAggregateVoucher
voucher t v = record {
  collection_id = 3;
  payer = 7;
  service_provider = 5;
  data_service = 4;
  timestamp_ns = t;
  value_aggregate = v;
  metadata = [];
}

-- The voucher of the first two receipts, signed with key 1.
abbrev pub first_rav : SignedRav
first_rav = record { message = voucher 6 30; signature = 3601 }
