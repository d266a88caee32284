-- ===== src/Lifecycle/Retention.antt =====
-- The stay of one transaction in the pool across crates/rpc and crates/txpool: how long the clean-up
-- leaves a transaction that was sent by the authenticated interface.
use kx_reth.Prelude.{ℕ, ◌+◌, ◌≡◌, ◌≤◌, ◌<◌, true, some, List, arith, leb, ◌&&◌, length}
use kx_reth.Prelude.Word.{u64_mod}
use kx_reth.TxMapping
use kx_reth.TxMapping.{TxMapping, unexecuted_tx_retention_blocks}
use kx_reth.TxPool.{Pool, in_pool, handle_kasplex_pool_reorg, is_transaction_expired_for_pool}
use kx_reth.TxPool.Reorg.{pool_after_reorg}
use kx_reth.Auth.{SendNode, min_l2_base_fee, send_raw_transaction}
use kx_reth.Auth.Send.{send_raw_transaction_numbers}

module _ (node : SendNode) (pool : Pool) where
  open node use {recover_raw_transaction, max_fee_per_gas, latest_header}

  -- A text that is not empty and decodes to a transaction that pays at least 2000 GWei is sent on top of
  -- block `number`, where `number` and 101 more fit a u64. The clean-up for a head then leaves the
  -- transaction in the pool exactly when it was there and the head is one of the 101 blocks from
  -- `number + 1` to `number + 101`: before them it counts as sent after the head, and from
  -- `number + 102` on as expired.
  pub sent_transaction_stays_for :
      (raw : List ℕ) (tx : node.Recovered) (number head : ℕ) (m : TxMapping) (s : node.State)
      (txs : pool.State)
      → 0 < length raw
      → recover_raw_transaction raw ≡ some tx
      → min_l2_base_fee ≤ max_fee_per_gas tx
      → latest_header s ≡ some number
      → number + 101 < u64_mod
      → let m1 = (send_raw_transaction node raw m s).1 in
        in_pool pool (node.hash tx) (handle_kasplex_pool_reorg pool true head m1 txs).1
        ≡ (in_pool pool (node.hash tx) txs && (leb (number + 1) head && leb head (number + 101)))
  unfolding is_transaction_expired_for_pool
  sent_transaction_stays_for raw tx number head m s txs some_bytes decodes pays latest small =
      let h = node.hash tx in
      let m1 = (send_raw_transaction node raw m s).1 in
      let sent : TxMapping.get_submission_block h m1 ≡ some (number + 1) = ground (
        arith,
        send_raw_transaction_numbers node raw tx number m s h some_bytes decodes pays latest
            (omega (arith, small)),
      ) in
      let left = (pool_after_reorg pool head m1 txs h).0 in ground (arith, left, sent, small)
