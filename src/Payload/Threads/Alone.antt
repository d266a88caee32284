-- ===== src/Payload/Threads/Alone.antt =====
-- crates/payload/src/builder.rs: the opening of a block as one step, which the other modules use, and as
-- the accesses to the cells that it consists of.
use kx_reth.Prelude.{ℕ, ◌≡◌, refl, Bool, true, some, List, replicate}
use kx_reth.Block.{SealedHeader, BlockExecutionCtx}
use kx_reth.Block.Config.{
  Cells, InnerConfig, new, set_next_block_extra_data, set_next_block_base_fee_per_gas,
  clear_next_block_extra_data, clear_next_block_base_fee_per_gas, next_evm_env,
  context_for_next_block,
}
use kx_reth.Attributes.{Codec, BuilderAttributes}
use kx_reth.Payload.{Builder, open_block, next_block_attributes}
use kx_reth.Payload.Threads.{Job, advance, step, run}
use kx_reth.Payload.Threads.Race.{job_of}

-- Six steps of the first job, with none of the second between them.
abbrev pub undisturbed : List Bool
undisturbed = replicate 6 true

module _ (codec : Codec) (builder : Builder codec.Recovered) where
  -- The job of a build with these attributes.
  abbrev pub job_for : SealedHeader → BuilderAttributes codec → ℕ → Job
  job_for parent attributes fee =
      job_of parent (next_block_attributes codec builder attributes) attributes.extra_data fee

  -- When the steps of a job are not interrupted, whatever the cells hold before and whatever the other
  -- job is about to do, the job reads the environment that reth computes for its attributes, with its
  -- own base fee in place of the computed one, and a context on its parent with its own extra data; the
  -- cells are empty afterwards, and the other job is as it was. The opening of the block in one step
  -- gives the block builder the same environment and context and leaves the same cells.
  pub undisturbed_is_open_block :
      (inner : InnerConfig) (parent : SealedHeader) (attributes : BuilderAttributes codec)
      (provider : builder.Provider) (fee : ℕ) (cells : Cells) (second : Job)
      → let s =
          run inner undisturbed
            (record { first = job_for parent attributes fee; second = second; cells = cells }) in
        let env =
          record (inner.next_evm_env parent.header
            (next_block_attributes codec builder attributes)) { basefee = fee } in
        (ctx : BlockExecutionCtx) × (s.first.env ≡ some env)
        × (s.first.ctx ≡ some ctx)
        × (ctx.parent_hash ≡ parent.hash)
        × (ctx.extra_data ≡ attributes.extra_data)
        × (s.cells ≡ new)
        × (s.second ≡ second)
        × (open_block codec builder inner parent attributes provider fee cells
            ≡ (builder.create_block_builder provider env parent ctx, new))
  unfolding run step advance open_block clear_next_block_extra_data
      clear_next_block_base_fee_per_gas set_next_block_extra_data set_next_block_base_fee_per_gas
      next_evm_env context_for_next_block
  undisturbed_is_open_block inner parent attributes provider fee cells second =
      (_, refl, refl, refl, refl, refl, refl, refl)
