-- ===== src/Engine/Cleanup.antt =====
-- crates/rpc/src/engine/api.rs with crates/txpool/src/lib.rs: the pool after a call of the engine API.
use kx_reth.Prelude.{
  ◌≢◌, ◌⊎◌, inl, inr, Result-cases, Option-cases, ℕ, ◌≡◌, true, false, not, ◌&&◌, Option, some,
  List, arith, contains, ok,
}
use kx_reth.TxPool.{Pool, in_pool, is_transaction_expired_for_pool}
use kx_reth.TxPool.Reorg.{numbered, pool_after_reorg}
use kx_reth.TxPool.Included.{pool_after_block}
use kx_reth.Engine.{Blocks, KasplexExecutionData, v1}
use kx_reth.Engine.Api.{
  Reth, Node, new_payload_v2, fork_choice_updated_v2, clean_up_block, clean_up_reorg,
  new_head_number,
}

module _ (blocks : Blocks) (pool : Pool) (reth : Reth blocks pool) where
  open reth use {
    World, PayloadStatus, ForkchoiceState, ForkchoiceUpdated, Attributes, head_block_hash,
    block_by_hash, header_by_hash, best_block_number,
  }

  -- When reth accepts the call and its provider then knows the block, the answer is reth's, and a
  -- transaction is in the pool exactly when reth left it there and it is not in the block; the mapping
  -- is as reth left it.
  pub new_payload_v2_clears_block :
      (payload : KasplexExecutionData blocks.V1) (node : Node blocks pool reth)
      (status : PayloadStatus) (hs : List ℕ) (h : ℕ)
      → (reth.new_payload_v2 (v1 payload.execution_payload) node).0 ≡ ok status
      → block_by_hash
          (blocks.block_hash payload.execution_payload)
          (reth.new_payload_v2 (v1 payload.execution_payload) node).1.world
        ≡ ok (some hs)
      → let inner = reth.new_payload_v2 (v1 payload.execution_payload) node in
        let out = new_payload_v2 blocks pool reth payload node in
        (out.0 ≡ ok status)
        × (in_pool pool h out.1.txs ≡ (in_pool pool h inner.1.txs && not (contains h hs)))
        × (out.1.mapping ≡ inner.1.mapping)
  unfolding new_payload_v2 clean_up_block
  new_payload_v2_clears_block payload node status hs h accepted known =
      let after =
        pool_after_block pool hs (reth.new_payload_v2 (v1 payload.execution_payload) node).1.txs
          h in
      (
        ground (arith, accepted, known),
        ground (arith, accepted, known, after.0),
        ground (arith, accepted, known),
      )

  -- The number of a head, as the provider knows it: that of its header or, when the provider has no such
  -- header or fails on it, that of the best block.
  abbrev pub IsHeadNumber : ℕ → World → ℕ → Type 0
  IsHeadNumber head world number =
      (header_by_hash head world ≡ ok (some number))
      ⊎ (((k : ℕ) → header_by_hash head world ≢ ok (some k))
          × (best_block_number world ≡ ok number))

  head_number_lem :
      (head : ℕ) (world : World) (number : ℕ)
      → IsHeadNumber head world number
      → new_head_number blocks pool reth head world ≡ some number
  unfolding new_head_number
  head_number_lem head world number (inl known) = ground (arith, known)
  head_number_lem head world number (inr (unknown, best)) =
      elim (Result-cases (header_by_hash head world)) [
        | inr (e, q) ↦ ground (arith, q, best)
        | inl (o, q) ↦ elim (Option-cases o) [
          | inl n ↦ ground (arith, q, n, best)
          | inr (k, n) ↦ absurd (unknown k (rw n at q))
        ]
      ]

  -- On a Kasplex chain, when reth accepts the new head and `number` is that of the head's header or, where
  -- the provider has no header for the head or fails on it, that of the best block: the answer is reth's,
  -- and a transaction is in the pool exactly when reth left it there and it is not expired at `number`,
  -- or has no number or the number 0; no reorg is marked as in progress, and all else is as reth left it. The
  -- header and the best block are those that the provider has after reth's call.
  pub fork_choice_updated_v2_clears_expired :
      (state : ForkchoiceState) (attributes : Option Attributes) (node : Node blocks pool reth)
      (updated : ForkchoiceUpdated) (number : ℕ) (h : ℕ)
      → (reth.fork_choice_updated_v2 state attributes node).0 ≡ ok updated
      → IsHeadNumber
          (head_block_hash state)
          (reth.fork_choice_updated_v2 state attributes node).1.world
          number
      → let inner = reth.fork_choice_updated_v2 state attributes node in
        let out = fork_choice_updated_v2 blocks pool reth true state attributes node in
        (out.0 ≡ ok updated)
        × (in_pool pool h out.1.txs ≡ (
            in_pool pool h inner.1.txs
            && not (
                is_transaction_expired_for_pool h inner.1.mapping number
                && numbered h inner.1.mapping)))
        × (out.1.mapping ≡ record inner.1.mapping { reorg_in_progress = false })
        × (out.1.world ≡ inner.1.world)
  unfolding fork_choice_updated_v2 clean_up_reorg
  fork_choice_updated_v2_clears_expired state attributes node updated number h accepted head =
      let inner = (reth.fork_choice_updated_v2 state attributes node).1 in
      let known = head_number_lem (head_block_hash state) inner.world number head in
      let after = pool_after_reorg pool number inner.mapping inner.txs h in
      (
        ground (arith, accepted, known),
        ground (arith, accepted, known, after.0),
        ground (arith, accepted, known, after.1),
        ground (arith, accepted, known),
      )
