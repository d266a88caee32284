-- ===== src/Tests/Node.antt =====
-- The node's other calls: a public transaction, a payload's execution, and the shared state after a send
-- and a clean-up of the pool.
use kx_reth.Prelude.{ℕ, ◌≡◌, refl, true, some, List, [], ◌∷◌, ◌++◌, ◌⊎◌, arith, ok, Result}
use kx_reth.Prelude.HashMap
use kx_reth.TxMapping
use kx_reth.TxMapping.{TxMapping, default}
use kx_reth.TxPool.{in_pool, handle_kasplex_pool_reorg}
use kx_reth.TxPool.Memory.{Lists, memory_pool}
use kx_reth.Block.{BlockExecutionCtx}
use kx_reth.Block.Config
use kx_reth.Block.Config.{context_for_block, context_for_payload}
use kx_reth.Block.Executor
use kx_reth.Block.ForPayload.{execute_block, payload_executes_like_block}
use kx_reth.Eth.{EthNode, EthState, send_raw_transaction}
use kx_reth.Shared.{SharedState, number_given, Reach, here, next, sends, reorgs}
use kx_reth.Shared.Calls.{was_given}
use kx_reth.Shared.Reachable.{start, numbers_come_from_sends}
use kx_reth.Tests.Builders.{byte_codec, list_builder, table, parent_header}
use kx_reth.Tests.Blocks.{counting_engine}
use kx_reth.Tests.Engines.{numbered_blocks}
use kx_reth.Auth
use kx_reth.Tests.Requests.{refusing_node}

-- the first byte of a raw transaction is its hash
abbrev first_hash : List ℕ → Result (Unit {0}) ℕ
first_hash [] = ok 0
first_hash (b ∷ bs) = ok b

abbrev put : ℕ → Lists → Result (Unit {0}) ℕ × Lists
put h s = (ok h, record s { pending = h ∷ s.pending })

put_lem :
    (tx : ℕ) (s : Lists) (h : ℕ) → (put tx s).0 ≡ ok h → in_pool memory_pool h (put tx s).1 ≡ true
put_lem tx s h e = ground (arith, e)

abbrev public_node : EthNode memory_pool
public_node = record {
  Recovered = ℕ;
  Pooled = ℕ;
  Subscribers = Unit;
  DecodeError = Unit;
  PoolError = Unit;
  recover_raw_transaction = first_hash;
  broadcast_raw_transaction = λ tx s. s;
  from_pooled = λ tx. tx;
  add_transaction = put;
  add_lem = put_lem;
}

abbrev public_state : EthState (Unit {0}) Lists
public_state = record {
  subscribers = tt;
  txs = record { pending = []; queued = [] };
  mapping = table;
}

payload_executes_like_block_example :
    let in_block =
      execute_block counting_engine
        (21000 ∷ 50 ∷ [])
        (Executor.new counting_engine 0 (context_for_block parent_header)) in
    (c1 : BlockExecutionCtx) × (c2 : BlockExecutionCtx) × (c3 : BlockExecutionCtx)
    × (context_for_payload (Config.v1 4 5 (1 ∷ [])) ≡ some c1)
    × (context_for_payload (Config.v2 4) ≡ some c2)
    × (context_for_payload (Config.v3 4) ≡ some c3)
    × (execute_block counting_engine (21000 ∷ 50 ∷ []) (Executor.new counting_engine 0 c1)
        ≡ in_block)
    × (execute_block counting_engine (21000 ∷ 50 ∷ []) (Executor.new counting_engine 0 c2)
        ≡ in_block)
    × (execute_block counting_engine (21000 ∷ 50 ∷ []) (Executor.new counting_engine 0 c3)
        ≡ in_block)
payload_executes_like_block_example =
    payload_executes_like_block counting_engine (21000 ∷ 50 ∷ []) 0 parent_header 5 (1 ∷ []) refl
      (omega arith)

-- 9 is sent on top of block 160, and the pool is cleaned up for the head 170
abbrev after_send : SharedState
after_send = record start {
  mapping = (Auth.send_raw_transaction refusing_node (9 ∷ []) default 160).1;
  given = number_given refusing_node (9 ∷ []) 160 ++ [];
}

abbrev after_reorg : SharedState
after_reorg = record after_send {
  mapping = (handle_kasplex_pool_reorg memory_pool true 170 after_send.mapping public_state.txs).0;
}

reached : Reach refusing_node byte_codec list_builder numbered_blocks memory_pool start after_reorg
reached = next (next here (sends (9 ∷ []) 160)) (reorgs true 170 public_state.txs)

abbrev the_number : ℕ
the_number = 161

numbers_come_from_sends_example :
    ((the_number ≡ 0) ⊎ (was_given 9 161 after_reorg.given ≡ true))
    × (after_reorg.cells ≡ Config.new)
unfolding Auth.send_raw_transaction Auth.set_transaction_number Auth.submit
    TxMapping.get_submission_block HashMap.get TxMapping.insert HashMap.insert HashMap.remove
    handle_kasplex_pool_reorg TxMapping.mark_start_pool_reorg TxMapping.mark_pool_reorged
numbers_come_from_sends_example =
    numbers_come_from_sends refusing_node byte_codec list_builder numbered_blocks memory_pool
      after_reorg 9 161 reached refl
