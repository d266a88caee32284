-- ===== src/Consensus/Body.antt =====
-- crates/consensus/src/validation.rs: the checks of a block's body and of its execution, which are reth's,
-- the parameter `RethBlockChecks`.
use kx_reth.Prelude.{ℕ, Option, List}
use kx_reth.Consensus.{Check}

pub record RethBlockChecks : Type 1 where
  pub Body : Type 0
  pub Header : Type 0
  pub Block : Type 0
  pub Receipt : Type 0
  pub Requests : Type 0
  pub check_body_against_header : Body → Header → Check
  -- at the chain spec of the node, with the state root and the bloom, if they are known
  pub check_block_post_execution : Block → List Receipt → Requests → Option (ℕ × ℕ) → Check

-- reth's `BlockExecutionResult`, the fields that are handed on
pub record BlockExecutionResult (Receipt Requests : Type 0) : Type 0 where
  pub receipts : List Receipt
  pub requests : Requests

module _ (reth : RethBlockChecks) where
  open reth use {
    Body, Header, Block, Receipt, Requests, check_body_against_header, check_block_post_execution,
  }

  -- `validate_body_against_header`
  unfoldable pub validate_body_against_header : Body → Header → Check
  validate_body_against_header body header = check_body_against_header body header

  -- `validate_block_post_execution`
  unfoldable pub validate_block_post_execution :
      Block → BlockExecutionResult Receipt Requests → Option (ℕ × ℕ) → Check
  validate_block_post_execution block result state_root_and_bloom =
      check_block_post_execution block result.receipts result.requests state_root_and_bloom
