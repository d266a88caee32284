-- ===== src/Payload/Opening.antt =====
-- crates/payload/src/builder.rs with crates/block/src/config.rs: the start of a build.
use kx_reth.Prelude.{ℕ, ◌≡◌, refl, []}
use kx_reth.Block.{SealedHeader, BlockEnv, BlockExecutionCtx}
use kx_reth.Block.Config.{
  Cells, InnerConfig, new, set_next_block_extra_data, set_next_block_base_fee_per_gas,
  clear_next_block_extra_data, clear_next_block_base_fee_per_gas, next_evm_env,
  context_for_next_block,
}
use kx_reth.Attributes.{Codec, BuilderAttributes}
use kx_reth.Payload.{Builder, open_block, next_block_attributes}

module _ (codec : Codec) (builder : Builder codec.Recovered) where
  open builder use {executed, created_lem, create_block_builder}

  pub open_block_lem :
      (inner : InnerConfig) (parent : SealedHeader) (attributes : BuilderAttributes codec)
      (provider : builder.Provider) (fee : ℕ) (cells : Cells)
      → (executed (open_block codec builder inner parent attributes provider fee cells).0 ≡ [])
        × ((open_block codec builder inner parent attributes provider fee cells).1 ≡ new)
  unfolding open_block clear_next_block_extra_data clear_next_block_base_fee_per_gas
      set_next_block_extra_data set_next_block_base_fee_per_gas
  open_block_lem inner parent attributes provider fee cells =
      (created_lem provider _ parent _, refl)

  -- Whatever the cells held before, the block builder gets the environment that reth computes for the
  -- attributes, with their base fee in place of the computed one, and a context on the parent with the
  -- attributes' extra data; and the cells are empty after it.
  pub open_block_uses_attributes :
      (inner : InnerConfig) (parent : SealedHeader) (attributes : BuilderAttributes codec)
      (provider : builder.Provider) (fee : ℕ) (cells : Cells)
      → (env : BlockEnv) × (ctx : BlockExecutionCtx) × (open_block codec builder inner parent
            attributes provider fee cells
          ≡ (create_block_builder provider env parent ctx, new))
        × (env
            ≡ record (inner.next_evm_env parent.header
                (next_block_attributes codec builder attributes)) { basefee = fee })
        × (ctx.parent_hash ≡ parent.hash)
        × (ctx.extra_data ≡ attributes.extra_data)
  unfolding open_block clear_next_block_extra_data clear_next_block_base_fee_per_gas
      set_next_block_extra_data set_next_block_base_fee_per_gas next_evm_env context_for_next_block
  open_block_uses_attributes inner parent attributes provider fee cells =
      let set =
        set_next_block_base_fee_per_gas fee
          (set_next_block_extra_data attributes.extra_data cells) in
      (
        next_evm_env inner set parent.header (next_block_attributes codec builder attributes),
        context_for_next_block set parent,
        refl,
        refl,
        refl,
        refl,
      )
