-- ===== src/Block/Assembler.antt =====
-- crates/block/src/assembler.rs: the header and the body of a built block. The roots and the bloom are
-- computed by alloy and reth, the parameter `Proofs`.
pub mod Accepted
use kx_reth.Prelude.{ℕ, ◌≡◌, Option, none, some, List, [], unwrap_or}
use kx_reth.Prelude.Word.{to_u64}
use kx_reth.Block.{Header, BlockEnv, BlockExecutionCtx, Withdrawal}

pub record Proofs : Type 1 where
  pub Tx : Type 0
  pub Receipt : Type 0
  pub calculate_transaction_root : List Tx → ℕ
  pub calculate_receipt_root_no_memo : List Receipt → ℕ
  pub logs_bloom : List Receipt → ℕ
  pub empty_ommer_root_hash : ℕ
  pub empty_withdrawals : ℕ
  pub beacon_nonce : ℕ
  -- the nonce of a block after the merge is 0
  pub beacon_nonce_lem : beacon_nonce ≡ 0

module _ (proofs : Proofs) where
  open proofs use {
    Tx, Receipt, calculate_transaction_root, calculate_receipt_root_no_memo, logs_bloom,
    empty_ommer_root_hash, empty_withdrawals, beacon_nonce,
  }

  -- alloy's `Block`, with its `BlockBody`
  pub record AssembledBlock : Type 0 where
    pub header : Header
    pub transactions : List Tx
    pub ommers : List Header
    pub withdrawals : Option (List Withdrawal)

  abbrev pub assembled_header :
      BlockEnv → BlockExecutionCtx → List Tx → List Receipt → ℕ → ℕ → ℕ → ℕ → Header
  assembled_header env ctx transactions receipts gas_used state_root timestamp number = record {
    parent_hash = ctx.parent_hash;
    ommers_hash = empty_ommer_root_hash;
    beneficiary = env.beneficiary;
    state_root = state_root;
    transactions_root = calculate_transaction_root transactions;
    receipts_root = calculate_receipt_root_no_memo receipts;
    withdrawals_root = some empty_withdrawals;
    logs_bloom = logs_bloom receipts;
    timestamp = timestamp;
    mix_hash = unwrap_or env.prevrandao 0;
    nonce = beacon_nonce;
    base_fee_per_gas = some env.basefee;
    number = number;
    gas_limit = env.gas_limit;
    difficulty = env.difficulty;
    gas_used = gas_used;
    extra_data = ctx.extra_data;
    parent_beacon_block_root = ctx.parent_beacon_block_root;
    blob_gas_used = none;
    excess_blob_gas = none;
    requests_hash = none;
  }

  -- `assemble_block`; `none` is the panic of `to()` on a timestamp or number past a u64
  unfoldable pub assemble_block :
      BlockEnv → BlockExecutionCtx → List Tx → List Receipt → ℕ → ℕ → Option AssembledBlock
  assemble_block env ctx transactions receipts gas_used state_root = elim (to_u64 env.timestamp) [
    | none ↦ none
    | some timestamp ↦ elim (to_u64 env.number) [
      | none ↦ none
      | some number ↦ some (record {
        header =
            assembled_header env ctx transactions receipts gas_used state_root timestamp number;
        transactions = transactions;
        ommers = [];
        withdrawals = some [];
      })
    ]
  ]
