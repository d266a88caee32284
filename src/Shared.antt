-- ===== src/Shared.antt =====
-- The state that all parts of the node share, the mapping of crates/tx_mapping and the cells of
-- crates/block, under any sequence of calls of crates/rpc, crates/payload, crates/primitives and
-- crates/txpool. The parts that are not in the repository may be in any state at each call.
pub mod Calls
pub mod Idle
pub mod Reachable
pub mod Quiet
use kx_reth.Prelude.{
  ℕ, Bool, Option, none, some, List, [], ◌∷◌, ◌++◌, ltb, ◌==◌, length, if◌then◌else◌,
}
use kx_reth.Prelude.Word.{add_u64}
use kx_reth.TxMapping.{TxMapping}
use kx_reth.TxPool.{Pool, handle_kasplex_pool_reorg}
use kx_reth.Block.{SealedHeader}
use kx_reth.Block.Config.{Cells, InnerConfig, new}
use kx_reth.Attributes.{Codec, BuilderAttributes}
use kx_reth.Payload.{Builder, kasplex_payload}
use kx_reth.Engine.{
  Block, Blocks, ExecutionPayload, KasplexExecutionData, block_to_payload,
  process_kasplex_execution_data,
}
use kx_reth.Engine.Validator.{ensure_well_formed_payload}
use kx_reth.Auth.{SendNode, min_l2_base_fee, send_raw_transaction}

-- The shared state, with the numbers that were given out so far, each with its hash.
pub record SharedState : Type 0 where
  pub mapping : TxMapping
  pub cells : Cells
  pub given : List (ℕ × ℕ)

module _ (node : SendNode) where
  open node use {State, hash, max_fee_per_gas, recover_raw_transaction, latest_header}

  -- The number that a call of `send_raw_transaction` gives out: one at most, and none where the call
  -- returns before the insertion or the latest header is not there.
  abbrev pub number_given : List ℕ → State → List (ℕ × ℕ)
  number_given raw s = if length raw == 0 then [] else elim (recover_raw_transaction raw) [
    | none ↦ []
    | some tx ↦
        if ltb (max_fee_per_gas tx) min_l2_base_fee
        then []
        else elim (latest_header s) [ none ↦ [] | some number ↦ (hash tx, add_u64 number 1) ∷ [] ]
  ]

-- One call on the shared state.
pub data Step (node : SendNode) (codec : Codec) (builder : Builder codec.Recovered)
    (blocks : Blocks) (pool : Pool) (s : SharedState) : SharedState → Type 0 where
  -- a transaction is sent
  sends :
      (raw : List ℕ) (st : node.State)
      → Step node codec builder blocks pool s (record s {
        mapping = (send_raw_transaction node raw s.mapping st).1;
        given = number_given node raw st ++ s.given;
      })
  -- a payload is built, with success or without
  builds :
      (inner : InnerConfig) (parent : SealedHeader) (attributes : BuilderAttributes codec)
      (is_cancelled : ℕ → Bool)
      → Step node codec builder blocks pool s (record s {
        cells =
            (kasplex_payload codec builder inner parent attributes is_cancelled s.cells
              s.mapping).1;
        mapping =
            (kasplex_payload codec builder inner parent attributes is_cancelled s.cells
              s.mapping).2;
      })
  -- a block is made into a payload
  hands_out :
      (b : Block blocks.Tx)
      → Step node codec builder blocks pool s
          (record s { mapping = (block_to_payload blocks b s.mapping).1 })
  -- a payload is checked
  checks :
      (p : ExecutionPayload blocks.V1)
      → Step node codec builder blocks pool s
          (record s { mapping = (ensure_well_formed_payload blocks p s.mapping).1 })
  -- a payload is processed, with a sidecar or without one
  processes :
      (p : ExecutionPayload blocks.V1) (extra : Option (KasplexExecutionData blocks.V1))
      → Step node codec builder blocks pool s
          (record s { mapping = (process_kasplex_execution_data blocks p extra s.mapping).1 })
  -- the pool is cleaned up for a new head
  reorgs :
      (is_kasplex : Bool) (new_head : ℕ) (txs : pool.State)
      → Step node codec builder blocks pool s (record s {
        mapping = (handle_kasplex_pool_reorg pool is_kasplex new_head s.mapping txs).0;
      })

-- Any number of calls from the start of the node.
pub data Reach (node : SendNode) (codec : Codec) (builder : Builder codec.Recovered)
    (blocks : Blocks) (pool : Pool) (start : SharedState) : SharedState → Type 0 where
  here : Reach node codec builder blocks pool start start
  next :
      {s t : SharedState}
      → Reach node codec builder blocks pool start s
      → Step node codec builder blocks pool s t
      → Reach node codec builder blocks pool start t
