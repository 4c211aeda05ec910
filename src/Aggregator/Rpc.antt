-- ===== src/Aggregator/Rpc.antt =====
-- The handler of the JSON-RPC server (crates/bin/aggregator/src/server.rs: aggregate_receipts_ and
-- impl RpcServer), with the versions (api_versioning.rs), the error codes (error_codes.rs) and the
-- response (jsonrpsee_helpers.rs).
pub mod Outcomes
use graph_tally.Prelude.{
  ℕ, Bool, true, false, List, [], ◌∷◌, ◌++◌, Option, none, some, String, Result, ok, err, map_err,
  if◌then◌else◌,
}
use text.Mathlib.Text.{◌==◌}
use graph_tally.Prelude.Words.{add_u64}
use graph_tally.Message.{Alloy, SolStruct, Eip712Domain}
use graph_tally.Graph.{Receipt, ReceiptAggregateVoucher, SignedReceipt, SignedRav}
use graph_tally.Aggregator.{Failure, check_and_aggregate_receipts}
use graph_tally.Aggregator.Signers.{SignerRegistry}
use graph_tally.Aggregator.Grpc.Handler.{Served, count_success, count_failure}

pub data GraphTallyRpcApiVersion : Type 0 where
  v0_0 : GraphTallyRpcApiVersion

-- The derived `from_str`.
abbrev pub version_from_str : String → Option GraphTallyRpcApiVersion
version_from_str text = if text == "0.0" then some v0_0 else none

-- The versions with a deprecation warning: there is none.
abbrev pub deprecated_versions : List GraphTallyRpcApiVersion
deprecated_versions = []

-- `Display`
abbrev pub version_to_string : GraphTallyRpcApiVersion → String
version_to_string v0_0 = "0.0"

-- The two lists of versions; `EnumIter` gives every version.
pub record GraphTallyRpcApiVersionsInfo : Type 0 where
  pub versions_supported : List GraphTallyRpcApiVersion
  pub versions_deprecated : List GraphTallyRpcApiVersion

abbrev pub graph_tally_rpc_api_versions_info : GraphTallyRpcApiVersionsInfo
graph_tally_rpc_api_versions_info = record {
  versions_supported = v0_0 ∷ [];
  versions_deprecated = deprecated_versions;
}

pub data JsonRpcErrorCode : Type 0 where
  generic invalid_version aggregation : JsonRpcErrorCode

-- An error object, by what it is made from.
pub data JsonRpcError : Type 0 where
  unsupported_version : String → JsonRpcError
  empty_batch : JsonRpcError
  aggregation_failed : Failure → JsonRpcError

abbrev pub error_code : JsonRpcError → JsonRpcErrorCode
error_code (unsupported_version _) = invalid_version
error_code empty_batch = aggregation
error_code (aggregation_failed _) = aggregation

-- The one warning there is: a deprecated version.
pub data JsonRpcWarning : Type 0 where
  deprecated_version : GraphTallyRpcApiVersion → JsonRpcWarning

pub record JsonRpcResponse (T : Type 0) : Type 0 where
  pub content : T
  pub warnings : Option (List JsonRpcWarning)

-- `JsonRpcResponse::warn`
unfoldable pub warn : {T : Type 0} → T → List JsonRpcWarning → JsonRpcResponse T
warn content [] = record { content = content; warnings = none }
warn content (w ∷ ws) = record { content = content; warnings = some (w ∷ ws) }

-- `JsonRpcResponse::ok`
abbrev pub plain : {T : Type 0} → T → JsonRpcResponse T
plain content = record { content = content; warnings = none }

-- The two methods of `RpcServer` that always succeed.
abbrev pub api_versions : Result (JsonRpcResponse GraphTallyRpcApiVersionsInfo) JsonRpcError
api_versions = ok (plain graph_tally_rpc_api_versions_info)

abbrev pub eip712_domain_info : Eip712Domain → Result (JsonRpcResponse Eip712Domain) JsonRpcError
eip712_domain_info domain_separator = ok (plain domain_separator)

unfoldable pub parse_api_version : String → Result GraphTallyRpcApiVersion JsonRpcError
parse_api_version api_version = elim (version_from_str api_version) [
  | some version ↦ ok version
  | none ↦ err (unsupported_version api_version)
]

abbrev same_version : GraphTallyRpcApiVersion → GraphTallyRpcApiVersion → Bool
same_version v0_0 v0_0 = true

abbrev lists_version : List GraphTallyRpcApiVersion → GraphTallyRpcApiVersion → Bool
lists_version [] version = false
lists_version (v ∷ vs) version = if same_version v version then true else lists_version vs version

unfoldable pub check_api_version_deprecation : GraphTallyRpcApiVersion → Option JsonRpcWarning
check_api_version_deprecation version =
    if lists_version deprecated_versions version then some (deprecated_version version) else none

abbrev pub warnings_of : GraphTallyRpcApiVersion → List JsonRpcWarning
warnings_of version = elim (check_api_version_deprecation version) [ none ↦ [] | some w ↦ w ∷ [] ]

-- The counters of `aggregate_receipts_`: a version that does not parse, and a warning.
unfoldable pub count_version : String → Served → Served
unfolding parse_api_version check_api_version_deprecation
count_version api_version self = elim (parse_api_version api_version) [
  | err _ ↦ record self { version_errors = add_u64 self.version_errors 1 }
  | ok version ↦ elim (check_api_version_deprecation version) [
    | none ↦ self
    | some _ ↦ record self { deprecation_warnings = add_u64 self.deprecation_warnings 1 }
  ]
]

module _ (alloy : Alloy) ⦃receipt_sol : SolStruct Receipt⦄
    ⦃rav_sol : SolStruct ReceiptAggregateVoucher⦄ (signers : SignerRegistry)
    (domain_separator : Eip712Domain) where
  -- What follows the version.
  unfoldable pub aggregate_batch :
      List JsonRpcWarning
      → List SignedReceipt
      → Option SignedRav
      → Result (JsonRpcResponse SignedRav) JsonRpcError
  unfolding warn
  aggregate_batch warnings [] previous_rav = err empty_batch
  aggregate_batch warnings (head ∷ tail) previous_rav =
      elim (check_and_aggregate_receipts alloy domain_separator (head ∷ tail) previous_rav
        signers) [ ok res ↦ ok (warn res warnings) | err e ↦ err (aggregation_failed e) ]

  -- What `aggregate_receipts_` returns; its counters are `count_version`.
  unfoldable pub aggregate_receipts_of_version :
      String
      → List SignedReceipt
      → Option SignedRav
      → Result (JsonRpcResponse SignedRav) JsonRpcError
  unfolding parse_api_version aggregate_batch
  aggregate_receipts_of_version api_version receipts previous_rav =
      elim (parse_api_version api_version) [
        | err e ↦ err e
        | ok version ↦ aggregate_batch (warnings_of version) receipts previous_rav
      ]

  unfoldable pub rpc_aggregate_receipts :
      Bool
      → String
      → List SignedReceipt
      → Option SignedRav
      → Served
      → Result (JsonRpcResponse SignedRav) JsonRpcError × Served
  unfolding aggregate_receipts_of_version count_version
  rpc_aggregate_receipts kafka api_version receipts previous_rav self =
      let counted = count_version api_version self in
      elim (aggregate_receipts_of_version api_version receipts previous_rav) [
        | ok res ↦ (ok res, count_success kafka receipts res.content counted)
        | err e ↦ (err e, count_failure counted)
      ]
