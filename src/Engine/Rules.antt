-- ===== src/Engine/Rules.antt =====
-- crates/rpc/src/engine/{validator,api}.rs and crates/primitives/src/engine/types.rs: the rules that the
-- engine is set up with, what it reads of a payload, and the two calls that hand a result on.
use kx_reth.Prelude.{ℕ, Bool, true, Option, none, some, List, length, Result, ok, err}
use kx_reth.TxMapping.{TxMapping}
use kx_reth.ChainSpec.{Alloy, ChainSpec, is_kasplex}
use kx_reth.Engine.{Blocks, ExecutionPayload}
use kx_reth.Engine.Validator.{NewPayloadError, ensure_well_formed_payload}

-- alloy's `ExecutionPayloadV1`, the fields that `KasplexExecutionData` shows
pub record ExecutionPayloadV1 : Type 0 where
  pub parent_hash : ℕ
  pub block_hash : ℕ
  pub block_number : ℕ
  pub timestamp : ℕ
  pub gas_used : ℕ
  pub transactions : List (List ℕ)

-- the fields that the engine sees through the trait `ExecutionPayload`
pub record PayloadView : Type 0 where
  pub parent_hash : ℕ
  pub block_hash : ℕ
  pub block_number : ℕ
  pub withdrawals : Option (List ℕ)
  pub block_access_list : Option (List ℕ)
  pub parent_beacon_block_root : Option ℕ
  pub timestamp : ℕ
  pub gas_used : ℕ
  pub transaction_count : ℕ

-- `impl ExecutionPayload for KasplexExecutionData`, of its `execution_payload`
unfoldable pub payload_view : ExecutionPayloadV1 → PayloadView
payload_view p = record {
  parent_hash = p.parent_hash;
  block_hash = p.block_hash;
  block_number = p.block_number;
  withdrawals = none;
  block_access_list = none;
  parent_beacon_block_root = none;
  timestamp = p.timestamp;
  gas_used = p.gas_used;
  transaction_count = length p.transactions;
}

-- the flags of reth's `TreeConfig` that are set
pub record TreeConfig (Rest : Type 0) : Type 0 where
  pub always_process_payload_attributes_on_canonical_head : Bool
  pub unwind_canonical_header : Bool
  pub rest : Rest

-- the configuration that `build_tree_validator` hands on
unfoldable pub tree_config_for : {Rest : Type 0} → TreeConfig Rest → TreeConfig Rest
tree_config_for config = record config {
  always_process_payload_attributes_on_canonical_head = true;
  unwind_canonical_header = true;
}

-- `validate_version_specific_fields` and `ensure_well_formed_attributes`
unfoldable pub validate_version_specific_fields :
    {E Version Fields : Type 0} → Version → Fields → Result E (Unit {0})
validate_version_specific_fields version fields = ok tt

unfoldable pub ensure_well_formed_attributes :
    {E Version Attributes : Type 0} → Version → Attributes → Result E (Unit {0})
ensure_well_formed_attributes version attributes = ok tt

module _ (alloy : Alloy) where
  -- `kasplex_allow_reorg`
  unfoldable pub kasplex_allow_reorg : ChainSpec alloy → Bool
  kasplex_allow_reorg chain_spec = is_kasplex alloy chain_spec

module _ (blocks : Blocks) {Sealed : Type 0} (sealed_block : blocks.Recovered → Sealed) where
  open blocks use {V1, Error}

  -- `convert_payload_to_block`; `none` is a panic
  unfoldable pub convert_payload_to_block :
      ExecutionPayload V1 → TxMapping → Option (Result (NewPayloadError Error) Sealed) × TxMapping
  convert_payload_to_block payload m =
      let (checked, m') = ensure_well_formed_payload blocks payload m in
      (
        elim checked [
          | none ↦ none
          | some (err e) ↦ some (err e)
          | some (ok recovered) ↦ some (ok (sealed_block recovered))
        ],
        m',
      )

-- `get_payload_v2`, over reth's call and the conversion of its error
unfoldable pub get_payload_v2 :
    {World PayloadId Envelope E RpcError : Type 0}
    → (PayloadId → World → Result E Envelope)
    → (E → RpcError)
    → PayloadId
    → World
    → Result RpcError Envelope
get_payload_v2 inner into payload_id world = elim (inner payload_id world) [
  | err e ↦ err (into e)
  | ok envelope ↦ ok envelope
]
