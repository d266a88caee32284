-- ===== src/Block/Data.antt =====
-- The data that crates/block works on: alloy's header and block, reth's block environment, and the
-- execution context of crates/block/src/factory.rs. Byte strings are lists of bytes.
use kx_reth.Prelude.{ℕ, Option, List}

-- alloy's `Header`
pub record Header : Type 0 where
  pub parent_hash : ℕ
  pub ommers_hash : ℕ
  pub beneficiary : ℕ
  pub state_root : ℕ
  pub transactions_root : ℕ
  pub receipts_root : ℕ
  pub withdrawals_root : Option ℕ
  pub logs_bloom : ℕ
  pub timestamp : ℕ
  pub mix_hash : ℕ
  pub nonce : ℕ
  pub base_fee_per_gas : Option ℕ
  pub number : ℕ
  pub gas_limit : ℕ
  pub difficulty : ℕ
  pub gas_used : ℕ
  pub extra_data : List ℕ
  pub parent_beacon_block_root : Option ℕ
  pub blob_gas_used : Option ℕ
  pub excess_blob_gas : Option ℕ
  pub requests_hash : Option ℕ

-- a header with its hash
pub record SealedHeader : Type 0 where
  pub header : Header
  pub hash : ℕ

-- revm's `BlockEnv`, the fields that are read
pub record BlockEnv : Type 0 where
  pub number : ℕ
  pub beneficiary : ℕ
  pub timestamp : ℕ
  pub gas_limit : ℕ
  pub basefee : ℕ
  pub difficulty : ℕ
  pub prevrandao : Option ℕ

-- the withdrawals of EIP-4895
pub record Withdrawal : Type 0 where
  pub index : ℕ
  pub validator_index : ℕ
  pub address : ℕ
  pub amount : ℕ

-- `KasplexBlockExecutionCtx`
pub record BlockExecutionCtx : Type 0 where
  pub parent_hash : ℕ
  pub parent_beacon_block_root : Option ℕ
  pub ommers : List Header
  pub withdrawals : Option (List Withdrawal)
  pub basefee_per_gas : ℕ
  pub extra_data : List ℕ

-- reth's `NextBlockEnvAttributes`
pub record NextBlockEnvAttributes : Type 0 where
  pub timestamp : ℕ
  pub suggested_fee_recipient : ℕ
  pub prev_randao : ℕ
  pub gas_limit : ℕ
  pub parent_beacon_block_root : Option ℕ
  pub withdrawals : Option (List Withdrawal)
  pub extra_data : List ℕ
