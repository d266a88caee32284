-- ===== src/Engine/Api.antt =====
-- crates/rpc/src/engine/api.rs: the two calls of the engine API that clean the pool up. reth's engine
-- and its provider are the parameter `Reth`; a call is one step on the node's state, although the code
-- awaits between the engine and the clean-up.
use kx_reth.Prelude.{ℕ, Bool, Option, none, some, List, Result, ok, err}
use kx_reth.TxMapping.{TxMapping}
use kx_reth.TxPool.{Pool, handle_kasplex_pool_reorg, remove_included_transactions}
use kx_reth.Engine.{Blocks, ExecutionPayload, v1, KasplexExecutionData}

-- The state of the node: reth's, the shared mapping, and the pool.
pub record NodeState (World Txs : Type 0) : Type 0 where
  pub world : World
  pub mapping : TxMapping
  pub txs : Txs

pub record Reth (blocks : Blocks) (pool : Pool) : Type 1 where
  pub World : Type 0
  pub RpcError : Type 0
  pub ProviderError : Type 0
  pub PayloadStatus : Type 0
  pub ForkchoiceState : Type 0
  pub ForkchoiceUpdated : Type 0
  pub Attributes : Type 0
  pub head_block_hash : ForkchoiceState → ℕ
  pub new_payload_v2 :
      ExecutionPayload blocks.V1
      → NodeState World pool.State
      → Result RpcError PayloadStatus × NodeState World pool.State
  pub fork_choice_updated_v2 :
      ForkchoiceState
      → Option Attributes
      → NodeState World pool.State
      → Result RpcError ForkchoiceUpdated × NodeState World pool.State
  -- the hashes of the transactions of a block
  pub block_by_hash : ℕ → World → Result ProviderError (Option (List ℕ))
  -- the number of the header
  pub header_by_hash : ℕ → World → Result ProviderError (Option ℕ)
  pub best_block_number : World → Result ProviderError ℕ

module _ (blocks : Blocks) (pool : Pool) (reth : Reth blocks pool) where
  open reth use {
    World, RpcError, ProviderError, PayloadStatus, ForkchoiceState, ForkchoiceUpdated, Attributes,
    head_block_hash, block_by_hash, header_by_hash, best_block_number,
  }

  abbrev pub Node : Type 0
  Node = NodeState World pool.State

  -- the clean-up after a block; its error is only logged, and it never fails
  unfoldable pub clean_up_block : Result ProviderError (Option (List ℕ)) → Node → Node
  clean_up_block (err e) node = node
  clean_up_block (ok none) node = node
  clean_up_block (ok (some hashes)) node = record node {
    txs = (remove_included_transactions pool hashes node.txs).1;
  }

  -- `new_payload_v2`
  unfoldable pub new_payload_v2 :
      KasplexExecutionData blocks.V1 → Node → Result RpcError PayloadStatus × Node
  new_payload_v2 payload node =
      let block_hash = blocks.block_hash payload.execution_payload in
      let (result, node') = reth.new_payload_v2 (v1 payload.execution_payload) node in
      elim result [
        | err e ↦ (err e, node')
        | ok status ↦ (ok status, clean_up_block (block_by_hash block_hash node'.world) node')
      ]

  -- `handle_kasplex_pool_reorg` on the node's state
  unfoldable pub clean_up_reorg : Bool → ℕ → Node → Node
  clean_up_reorg is_kasplex number node =
      let (mapping, txs) = handle_kasplex_pool_reorg pool is_kasplex number node.mapping node.txs in
      record node { mapping = mapping; txs = txs }

  -- the head's number or, without one, the number of the best block
  unfoldable pub new_head_number : ℕ → World → Option ℕ
  new_head_number head world = elim (header_by_hash head world) [
    | ok (some number) ↦ some number
    | ok none ↦ elim (best_block_number world) [ ok number ↦ some number | err e ↦ none ]
    | err _ ↦ elim (best_block_number world) [ ok number ↦ some number | err e ↦ none ]
  ]

  -- `fork_choice_updated_v2`, with `chain_spec.is_kasplex()` as its first argument
  unfoldable pub fork_choice_updated_v2 :
      Bool → ForkchoiceState → Option Attributes → Node → Result RpcError ForkchoiceUpdated × Node
  fork_choice_updated_v2 is_kasplex state attributes node =
      let (result, node') = reth.fork_choice_updated_v2 state attributes node in
      elim result [
        | err e ↦ (err e, node')
        | ok updated ↦ elim (new_head_number (head_block_hash state) node'.world) [
          | none ↦ (ok updated, node')
          | some number ↦ (ok updated, clean_up_reorg is_kasplex number node')
        ]
      ]
