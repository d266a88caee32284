-- ===== src/Shared/Quiet.antt =====
-- What crates/tx_mapping answers about deleted transactions and reorganisations of the pool in every
-- state that calls of crates/rpc, crates/payload, crates/primitives and crates/txpool can reach.
use kx_reth.Prelude.{ℕ, ◌≡◌, refl, true, false}
use kx_reth.TxMapping
use kx_reth.TxPool.{Pool}
use kx_reth.Attributes.{Codec}
use kx_reth.Payload.{Builder}
use kx_reth.Engine.{Blocks}
use kx_reth.Auth.{SendNode}
use kx_reth.Shared.{
  SharedState, Step, sends, builds, hands_out, checks, processes, reorgs, Reach, here, next,
}
use kx_reth.Shared.Idle.{
  IsIdle, sends-IsIdle, builds-IsIdle, block_to_payload-IsIdle, checks-IsIdle, processes-IsIdle,
  reorgs-IsIdle,
}
use kx_reth.Shared.Reachable.{start}

module _ (node : SendNode) (codec : Codec) (builder : Builder codec.Recovered) (blocks : Blocks)
    (pool : Pool) where
  Step-IsIdle :
      {s t : SharedState}
      → Step node codec builder blocks pool s t
      → IsIdle s.mapping
      → IsIdle t.mapping
  Step-IsIdle {s = s} (sends raw st) idle = sends-IsIdle node raw s.mapping st idle
  Step-IsIdle {s = s} (builds inner parent attributes is_cancelled) idle =
      builds-IsIdle codec builder inner parent attributes is_cancelled s.cells s.mapping idle
  Step-IsIdle {s = s} (hands_out b) idle = block_to_payload-IsIdle blocks b s.mapping idle
  Step-IsIdle {s = s} (checks p) idle = checks-IsIdle blocks p s.mapping idle
  Step-IsIdle {s = s} (processes p extra) idle = processes-IsIdle blocks p extra s.mapping idle
  Step-IsIdle {s = s} (reorgs is_kasplex new_head txs) idle =
      reorgs-IsIdle pool is_kasplex new_head s.mapping txs idle

  Reach-IsIdle : {s : SharedState} → Reach node codec builder blocks pool start s → IsIdle s.mapping
  Reach-IsIdle here = (refl, refl)
  Reach-IsIdle (next r step) = Step-IsIdle step (Reach-IsIdle r)

  -- From a new table and a new configuration, after any sequence of calls that send a transaction,
  -- build a payload, make a block into one, check or process one, or clean the pool up: no transaction
  -- counts as deleted, and every reorganisation of the pool is complete.
  pub nothing_is_deleted :
      (s : SharedState) (h : ℕ)
      → Reach node codec builder blocks pool start s
      → (TxMapping.is_deleted_transaction h s.mapping ≡ false)
        × (TxMapping.is_reorg_complete s.mapping ≡ true)
  unfolding TxMapping.is_deleted_transaction TxMapping.is_reorg_complete
  nothing_is_deleted s h r =
      let (none_deleted, no_reorg) = Reach-IsIdle r in rw (none_deleted, no_reorg) (refl, refl)
