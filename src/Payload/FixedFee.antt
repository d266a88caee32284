-- ===== src/Payload/FixedFee.antt =====
-- crates/payload, crates/block and crates/consensus together: a block that is built from attributes, and
-- the checks that the same node makes of its header.
use kx_reth.Prelude.{ℕ, ◌≡◌, ◌≤◌, ◌<◌, ◌↔◌, refl, sym, ap, some, List, [], arith, ok}
use kx_reth.Prelude.Word.{u64_mod}
use kx_reth.Block.{Header, SealedHeader, BlockEnv, BlockExecutionCtx}
use kx_reth.Block.Assembler.{Proofs, AssembledBlock, assembled_header, assemble_block}
use kx_reth.Block.Assembler.Accepted.{header_view, PassesReth}
use kx_reth.Block.Config.{
  Cells, InnerConfig, new, set_next_block_extra_data, set_next_block_base_fee_per_gas,
  clear_next_block_extra_data, clear_next_block_base_fee_per_gas, next_evm_env,
  context_for_next_block,
}
use kx_reth.Consensus.{
  RethChecks, kasplex_base_fee, validate_header, validate_header_against_parent,
}
use kx_reth.Consensus.Accepts.{validate_header_iff, validate_header_against_parent_iff}
use kx_reth.Attributes.{Codec, BuilderAttributes}
use kx_reth.Payload.{Builder, open_block, next_block_attributes}

module _ (codec : Codec) (builder : Builder codec.Recovered) where
  -- The environment and the context of a block that is built from attributes.
  abbrev pub opened_env : InnerConfig → SealedHeader → BuilderAttributes codec → ℕ → BlockEnv
  opened_env inner parent attributes fee =
      record (inner.next_evm_env parent.header (next_block_attributes codec builder attributes)) {
        basefee = fee;
      }

  abbrev pub opened_ctx : SealedHeader → BuilderAttributes codec → BlockExecutionCtx
  opened_ctx parent attributes =
      context_for_next_block (set_next_block_extra_data attributes.extra_data new) parent

  opened_lem :
      (inner : InnerConfig) (parent : SealedHeader) (attributes : BuilderAttributes codec)
      (provider : builder.Provider) (fee : ℕ) (cells : Cells)
      → open_block codec builder inner parent attributes provider fee cells ≡ (
        builder.create_block_builder provider
            (opened_env inner parent attributes fee)
            parent
            (opened_ctx parent attributes),
        new,
      )
  unfolding open_block clear_next_block_extra_data clear_next_block_base_fee_per_gas
      set_next_block_extra_data set_next_block_base_fee_per_gas next_evm_env context_for_next_block
  opened_lem inner parent attributes provider fee cells = refl

  module _ (proofs : Proofs) (reth : RethChecks Header) where
    -- A block is opened from attributes with any base fee that fits a u64, and assembled in the
    -- environment and the context that it was opened with. Where reth computes the difficulty 0, a time
    -- that is not before the parent's, and a time and a number that fit a u64, reth's own checks pass on
    -- the header, and alloy and reth agree on the hash of no ommers, the node's own two checks of the
    -- header pass exactly when the attributes had the fixed base fee.
    pub built_block_is_accepted_iff :
        (inner : InnerConfig) (parent : SealedHeader) (attributes : BuilderAttributes codec)
        (provider : builder.Provider) (fee : ℕ) (cells : Cells) (txs : List proofs.Tx)
        (receipts : List proofs.Receipt) (gas state_root : ℕ)
        → let env = opened_env inner parent attributes fee in
          env.difficulty ≡ 0
          → (opened_env inner parent attributes fee).timestamp < u64_mod
          → (opened_env inner parent attributes fee).number < u64_mod
          → parent.header.timestamp ≤ (opened_env inner parent attributes fee).timestamp
          → reth.empty_ommer_root_hash ≡ proofs.empty_ommer_root_hash
          → let env = opened_env inner parent attributes fee in
            let ctx = opened_ctx parent attributes in
            PassesReth proofs reth
              (assembled_header proofs env ctx txs receipts gas state_root env.timestamp env.number)
              parent.header
            → let env = opened_env inner parent attributes fee in
              let ctx = opened_ctx parent attributes in
              (open_block codec builder inner parent attributes provider fee cells
                ≡ (builder.create_block_builder provider env parent ctx, new))
              × (b : AssembledBlock proofs) × (assemble_block proofs env ctx txs receipts gas
                    state_root
                  ≡ some b)
              × (((validate_header header_view reth b.header ≡ ok tt)
                    × (validate_header_against_parent header_view reth b.header parent.header
                        ≡ ok tt))
                  ↔ (fee ≡ kasplex_base_fee))
    unfolding assemble_block
    built_block_is_accepted_iff inner parent attributes provider fee cells txs receipts gas
          state_root no_difficulty small_time small_number later same_ommers passes =
        let env = opened_env inner parent attributes fee in
        let ctx = opened_ctx parent attributes in
        let h =
          assembled_header proofs env ctx txs receipts gas state_root env.timestamp env.number in
        (
          opened_lem inner parent attributes provider fee cells,
          record { header = h; transactions = txs; ommers = []; withdrawals = some [] },
          ground (arith, small_time, small_number),
          (
            λ accepted.
                ground
                  (arith, ((validate_header_iff header_view reth h).0 accepted.0).fixed_base_fee),
            λ fixed. (
              (validate_header_iff header_view reth h).1 (record {
                no_difficulty = no_difficulty;
                zero_nonce = ap some proofs.beacon_nonce_lem;
                no_ommers = sym same_ommers;
                extra_data_passes = passes.extra_data_passes;
                gas_passes = passes.gas_passes;
                base_fee_passes = passes.base_fee_passes;
                fixed_base_fee = ap some fixed;
              }),
              (validate_header_against_parent_iff header_view reth h parent.header).1
                  (passes.parent_passes, later, ap some fixed),
            ),
          ),
        )
