-- ===== src/Engine/Roundtrip.antt =====
-- crates/primitives/src/engine/mod.rs and crates/rpc/src/engine/validator.rs, with
-- crates/block/src/assembler.rs: a block that was built here, on its way out as a payload and back.
use kx_reth.Prelude.{ℕ, ◌≡◌, ◌≤◌, ◌<◌, none, some, List, map, length, unwrap_or, ok}
use kx_reth.Prelude.Word.{u64_mod}
use kx_reth.TxMapping
use kx_reth.TxMapping.{TxMapping}
use kx_reth.Block.Assembler.{Proofs, AssembledBlock}
use kx_reth.Engine.{Block, Blocks}

-- What a V1 payload carries of a block, as alloy documents it: the ommers, the difficulty and the nonce
-- are those of a block after the merge, the root of the transactions is computed again, and the roots
-- and the gas of later forks are not there.
abbrev pub v1_block : {Tx : Type 0} → ℕ → (List Tx → ℕ) → Block Tx → Block Tx
v1_block no_ommers root b = record b {
  header = record b.header {
    ommers_hash = no_ommers;
    transactions_root = root b.transactions;
    withdrawals_root = none;
    nonce = 0;
    base_fee_per_gas = some (unwrap_or b.header.base_fee_per_gas 0);
    difficulty = 0;
    parent_beacon_block_root = none;
    blob_gas_used = none;
    excess_blob_gas = none;
    requests_hash = none;
  };
}

-- alloy's two conversions undo each other on what a V1 payload carries, if the extra data has at most
-- 32 bytes and the base fee fits a u64.
pub record V1Codec (blocks : Blocks) : Type 0 where
  pub empty_ommer_root_hash : ℕ
  pub calculate_transaction_root : List blocks.Tx → ℕ
  pub v1_lem :
      (h : ℕ) (b : Block blocks.Tx)
      → length b.header.extra_data ≤ 32
      → unwrap_or b.header.base_fee_per_gas 0 < u64_mod
      → blocks.try_into_block (blocks.from_block_unchecked h b)
        ≡ ok (v1_block empty_ommer_root_hash calculate_transaction_root b)

module _ (blocks : Blocks) (v1_codec : V1Codec blocks) (proofs : Proofs)
    (signed : proofs.Tx → blocks.Tx) where
  open blocks use {hash_slow, try_recover, from_block_unchecked}
  open v1_codec use {empty_ommer_root_hash, calculate_transaction_root, v1_lem}

  -- The built block, with its transactions as the engine API has them.
  abbrev pub outgoing : AssembledBlock proofs → Block blocks.Tx
  outgoing b = record { header = b.header; transactions = map signed b.transactions }

  -- The two crates take their constants and the root of the transactions from one library.
  pub record Agree : Type 0 where
    pub same_ommers : empty_ommer_root_hash ≡ proofs.empty_ommer_root_hash
    pub same_withdrawals : blocks.empty_withdrawals ≡ proofs.empty_withdrawals
    pub same_root :
        (txs : List proofs.Tx)
        → calculate_transaction_root (map signed txs) ≡ proofs.calculate_transaction_root txs
