-- ===== src/Block/Assembler/Accepted.antt =====
-- crates/block meets crates/consensus: the blocks that are built, and the checks of their headers.
use kx_reth.Prelude.{ℕ, ◌≤◌, ◌<◌, ◌≡◌, refl, sym, some, List, [], arith, ok, ap}
use kx_reth.Prelude.Word.{u64_mod}
use kx_reth.Block.{Header, SealedHeader, BlockEnv, BlockExecutionCtx, NextBlockEnvAttributes}
use kx_reth.Block.Assembler.{Proofs, AssembledBlock, assembled_header, assemble_block}
use kx_reth.Block.Config.{
  Cells, InnerConfig, set_next_block_extra_data, set_next_block_base_fee_per_gas,
  clear_next_block_extra_data, clear_next_block_base_fee_per_gas, next_evm_env,
  context_for_next_block,
}
use kx_reth.Consensus.{
  BlockHeader, RethChecks, kasplex_base_fee, validate_header, validate_header_against_parent,
}
use kx_reth.Consensus.Accepts.{validate_header_iff, validate_header_against_parent_iff}

-- alloy's `BlockHeader` for its own `Header`
abbrev pub header_view : BlockHeader Header
header_view = record {
  difficulty = λ h. h.difficulty;
  nonce = λ h. some h.nonce;
  ommers_hash = λ h. h.ommers_hash;
  base_fee_per_gas = λ h. h.base_fee_per_gas;
  timestamp = λ h. h.timestamp;
}

-- With both cells set, the next block gets the base fee and the extra data that were set; with both
-- cleared, the base fee that reth computes and the extra data of the parent.
pub next_block_uses_cells :
    (inner : InnerConfig) (c : Cells) (parent : SealedHeader) (attributes : NextBlockEnvAttributes)
    (fee : ℕ) (bytes : List ℕ)
    → let set = set_next_block_base_fee_per_gas fee (set_next_block_extra_data bytes c) in
      let cleared = clear_next_block_base_fee_per_gas (clear_next_block_extra_data set) in
      ((next_evm_env inner set parent.header attributes).basefee ≡ fee)
      × ((context_for_next_block set parent).extra_data ≡ bytes)
      × (next_evm_env inner cleared parent.header attributes
          ≡ inner.next_evm_env parent.header attributes)
      × ((context_for_next_block cleared parent).extra_data ≡ parent.header.extra_data)
unfolding set_next_block_extra_data set_next_block_base_fee_per_gas clear_next_block_extra_data
    clear_next_block_base_fee_per_gas next_evm_env context_for_next_block
next_block_uses_cells inner c parent attributes fee bytes = (refl, refl, refl, refl)

module _ (proofs : Proofs) (reth : RethChecks Header) where
  open proofs use {Tx, Receipt, empty_ommer_root_hash}
  open reth use {
    validate_header_extra_data, validate_header_gas, validate_header_base_fee,
    validate_against_parent_hash_number,
  }

  -- reth's own checks pass on a header and its parent.
  pub record PassesReth (h parent : Header) : Type 0 where
    pub extra_data_passes : validate_header_extra_data h 32 ≡ ok tt
    pub gas_passes : validate_header_gas h ≡ ok tt
    pub base_fee_passes : validate_header_base_fee h ≡ ok tt
    pub parent_passes : validate_against_parent_hash_number h parent ≡ ok tt

  -- A block assembled where the difficulty is 0, the base fee is the fixed one and the time is not
  -- before the parent's passes both header checks, if reth's checks pass on its header, and alloy and
  -- reth agree on the hash of no ommers. If the time and the number fit a u64, it is assembled.
  pub assembled_block_is_accepted :
      (env : BlockEnv) (ctx : BlockExecutionCtx) (txs : List Tx) (receipts : List Receipt)
      (gas state_root : ℕ) (parent : Header)
      → env.timestamp < u64_mod
      → env.number < u64_mod
      → env.difficulty ≡ 0
      → env.basefee ≡ kasplex_base_fee
      → parent.timestamp ≤ env.timestamp
      → reth.empty_ommer_root_hash ≡ empty_ommer_root_hash
      → PassesReth
          (assembled_header proofs env ctx txs receipts gas state_root env.timestamp env.number)
          parent
      → (b : AssembledBlock proofs) × (assemble_block proofs env ctx txs receipts gas state_root
          ≡ some b)
        × (validate_header header_view reth b.header ≡ ok tt)
        × (validate_header_against_parent header_view reth b.header parent ≡ ok tt)
  unfolding assemble_block
  assembled_block_is_accepted env ctx txs receipts gas state_root parent ht hn hd hb hp ho c =
      let h =
        assembled_header proofs env ctx txs receipts gas state_root env.timestamp env.number in
      (
        record { header = h; transactions = txs; ommers = []; withdrawals = some [] },
        ground arith,
        (validate_header_iff header_view reth h).1 (record {
          no_difficulty = hd;
          zero_nonce = ap some proofs.beacon_nonce_lem;
          no_ommers = sym ho;
          extra_data_passes = c.extra_data_passes;
          gas_passes = c.gas_passes;
          base_fee_passes = c.base_fee_passes;
          fixed_base_fee = ap some hb;
        }),
        (validate_header_against_parent_iff header_view reth h parent).1
            (c.parent_passes, hp, ap some hb),
      )
