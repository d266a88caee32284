-- ===== src/Block/Config.antt =====
-- crates/block/src/{config,factory}.rs: the EVM configuration. The two `Mutex` cells that all clones of
-- a configuration share are the state `Cells`. reth's `EthEvmConfig` is the parameter `inner`.
use kx_reth.Prelude.{ℕ, Option, none, some, List, [], unwrap_or}
use kx_reth.Prelude.Word.{to_u64}
use kx_reth.Block.{Header, SealedHeader, BlockEnv, BlockExecutionCtx, NextBlockEnvAttributes}

-- `current_extra_data` and `current_base_fee_per_gas`
pub record Cells : Type 0 where
  pub extra_data : Option (List ℕ)
  pub base_fee_per_gas : Option ℕ

-- what `new_with_evm_factory` starts from
abbrev pub new : Cells
new = record { extra_data = none; base_fee_per_gas = none }

unfoldable pub set_next_block_extra_data : List ℕ → Cells → Cells
set_next_block_extra_data bytes c = record c { extra_data = some bytes }

unfoldable pub clear_next_block_extra_data : Cells → Cells
clear_next_block_extra_data c = record c { extra_data = none }

unfoldable pub set_next_block_base_fee_per_gas : ℕ → Cells → Cells
set_next_block_base_fee_per_gas fee c = record c { base_fee_per_gas = some fee }

unfoldable pub clear_next_block_base_fee_per_gas : Cells → Cells
clear_next_block_base_fee_per_gas c = record c { base_fee_per_gas = none }

-- `EthEvmConfig::next_evm_env`, whose error type is `Infallible`
pub record InnerConfig : Type 0 where
  pub next_evm_env : Header → NextBlockEnvAttributes → BlockEnv

-- `next_evm_env`: the base fee of the cell, if one is set, overrides the computed one
unfoldable pub next_evm_env : InnerConfig → Cells → Header → NextBlockEnvAttributes → BlockEnv
next_evm_env inner c parent attributes =
    let env = inner.next_evm_env parent attributes in
    elim c.base_fee_per_gas [ none ↦ env | some fee ↦ record env { basefee = fee } ]

-- `context_for_block`
unfoldable pub context_for_block : Header → BlockExecutionCtx
context_for_block h = record {
  parent_hash = h.parent_hash;
  parent_beacon_block_root = h.parent_beacon_block_root;
  ommers = [];
  withdrawals = some [];
  basefee_per_gas = unwrap_or h.base_fee_per_gas 0;
  extra_data = h.extra_data;
}

-- `context_for_next_block`
unfoldable pub context_for_next_block : Cells → SealedHeader → BlockExecutionCtx
context_for_next_block c parent = record {
  parent_hash = parent.hash;
  parent_beacon_block_root = none;
  ommers = [];
  withdrawals = some [];
  basefee_per_gas = unwrap_or parent.header.base_fee_per_gas 0;
  extra_data = unwrap_or c.extra_data parent.header.extra_data;
}

-- alloy's `ExecutionPayload`: of a V1 payload the fields that are read here, of V2 and V3 the parent
pub data PayloadVersion : Type 0 where
  -- parent hash, base fee, extra data
  v1 : ℕ → ℕ → List ℕ → PayloadVersion
  v2 v3 : ℕ → PayloadVersion

-- `context_for_payload`; `none` is the panic of `to::<u64>()`
unfoldable pub context_for_payload : PayloadVersion → Option BlockExecutionCtx
context_for_payload (v1 parent fee extra) = elim (to_u64 fee) [
  | none ↦ none
  | some basefee ↦ some (record {
    parent_hash = parent;
    parent_beacon_block_root = none;
    ommers = [];
    withdrawals = none;
    basefee_per_gas = basefee;
    extra_data = extra;
  })
]
context_for_payload (v2 parent) = some (record {
  parent_hash = parent;
  parent_beacon_block_root = none;
  ommers = [];
  withdrawals = none;
  basefee_per_gas = 0;
  extra_data = [];
})
context_for_payload (v3 parent) = some (record {
  parent_hash = parent;
  parent_beacon_block_root = none;
  ommers = [];
  withdrawals = none;
  basefee_per_gas = 0;
  extra_data = [];
})

-- `create_executor` hands the context on field by field
unfoldable pub executor_ctx : BlockExecutionCtx → BlockExecutionCtx
executor_ctx ctx = record {
  parent_hash = ctx.parent_hash;
  parent_beacon_block_root = ctx.parent_beacon_block_root;
  ommers = ctx.ommers;
  withdrawals = ctx.withdrawals;
  basefee_per_gas = ctx.basefee_per_gas;
  extra_data = ctx.extra_data;
}
