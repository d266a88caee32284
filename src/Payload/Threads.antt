-- ===== src/Payload/Threads.antt =====
-- crates/payload/src/builder.rs with crates/block/src/config.rs: two builds at once. Every job works on
-- a clone of the configuration, and all clones share the two cells. Each access to a cell is one step
-- under that cell's lock, and the steps of two jobs come in any order.
pub mod Race
pub mod Alone
pub mod Stale
use kx_reth.Prelude.{ℕ, Bool, true, false, Option, none, some, List, [], ◌∷◌}
use kx_reth.Block.{SealedHeader, BlockEnv, BlockExecutionCtx, NextBlockEnvAttributes}
use kx_reth.Block.Config.{
  Cells, InnerConfig, set_next_block_extra_data, set_next_block_base_fee_per_gas,
  clear_next_block_extra_data, clear_next_block_base_fee_per_gas, next_evm_env,
  context_for_next_block,
}

-- how far a job has come in the opening of its block
pub data Phase : Type 0 where
  idle extra_data_set base_fee_set env_read ctx_read extra_data_cleared opened : Phase

-- a job: what it builds on, what it reads from its attributes, and what it has got so far
pub record Job : Type 0 where
  pub parent : SealedHeader
  pub next_attributes : NextBlockEnvAttributes
  pub extra_data : List ℕ
  pub base_fee : ℕ
  pub phase : Phase
  pub env : Option BlockEnv
  pub ctx : Option BlockExecutionCtx

-- two jobs and the cells that they share
pub record System : Type 0 where
  pub first : Job
  pub second : Job
  pub cells : Cells

-- One access to the cells: both are set, reth's `builder_for_next_block` asks for the environment and
-- then for the context, and both are cleared.
unfoldable pub advance : InnerConfig → Job → Cells → Job × Cells
advance inner job cells = elim job.phase [
  | idle ↦ (record job { phase = extra_data_set }, set_next_block_extra_data job.extra_data cells)
  | extra_data_set ↦
      (record job { phase = base_fee_set }, set_next_block_base_fee_per_gas job.base_fee cells)
  | base_fee_set ↦
      let env = next_evm_env inner cells job.parent.header job.next_attributes in
      (record job { phase = env_read; env = some env }, cells)
  | env_read ↦
      let ctx = context_for_next_block cells job.parent in
      (record job { phase = ctx_read; ctx = some ctx }, cells)
  | ctx_read ↦ (record job { phase = extra_data_cleared }, clear_next_block_extra_data cells)
  | extra_data_cleared ↦ (record job { phase = opened }, clear_next_block_base_fee_per_gas cells)
  | opened ↦ (job, cells)
]

-- one step of the first job, or of the second
unfoldable pub step : InnerConfig → Bool → System → System
step inner true s =
    let (job, cells) = advance inner s.first s.cells in record s { first = job; cells = cells }
step inner false s =
    let (job, cells) = advance inner s.second s.cells in record s { second = job; cells = cells }

-- the steps of both, in the order of a schedule
unfoldable pub run : InnerConfig → List Bool → System → System
run inner [] s = s
run inner (who ∷ schedule) s = run inner schedule (step inner who s)
