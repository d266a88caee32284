-- ===== src/Concurrent/Threads.antt =====
-- The calls on the mapping that the operations of crates/rpc, crates/payload, crates/primitives and
-- crates/txpool make, in their order. All else that an operation does is done at its start, or between
-- two of its calls with the values it has got.
use kx_reth.Prelude.{
  ℕ, Bool, true, false, Option, none, some, List, [], ◌∷◌, ◌++◌, ltb, not, ◌&&◌, ◌==◌, length,
  unwrap_or, if◌then◌else◌, Result, ok, err,
}
use kx_reth.Prelude.Word.{add_u64}
use kx_reth.TxPool.{Pool}
use kx_reth.TxMapping.{unexecuted_tx_retention_blocks}
use kx_reth.Engine.{
  Block, Blocks, ExecutionPayload, v1, v2, v3, KasplexExecutionData, fix_withdrawals_root,
}
use kx_reth.Auth.{SendNode, min_l2_base_fee}
use kx_reth.Concurrent.Program.{
  Program, pure, get_submission_block, get_tx_number, insert, mark_start_pool_reorg,
  mark_pool_reorged, ◌>>=◌, ◌>>◌,
}

module _ (blocks : Blocks) where
  open blocks use {
    Tx, V1, Error, hash, hash_slow, base_fee_error, from_block_unchecked, try_into_block,
  }

  unfoldable pub insert_each : List Tx → List ℕ → Program (Unit {0})
  insert_each [] numbers = pure tt
  insert_each (tx ∷ txs) [] = pure tt
  insert_each (tx ∷ txs) (n ∷ ns) = insert (hash tx) n (insert_each txs ns)

  unfoldable pub read_each : List Tx → Program (List ℕ)
  read_each [] = pure []
  read_each (tx ∷ txs) =
      get_submission_block (hash tx) λ o. do ns ← read_each txs; pure (unwrap_or o 0 ∷ ns)

  unfoldable pub take_each : List Tx → Program (Unit {0})
  take_each [] = pure tt
  take_each (tx ∷ txs) = get_tx_number (hash tx) λ n. take_each txs

  -- `block_to_payload`
  unfoldable pub payload_thread : Block Tx → Program (ExecutionPayload V1)
  payload_thread block = do
    numbers ← read_each block.transactions
    insert_each block.transactions numbers
    pure (v1 (from_block_unchecked (hash_slow block.header) block))

  -- the body of `if let Some(data) = extra_data`
  unfoldable pub restore_thread : List Tx → Option (KasplexExecutionData V1) → Program (Unit {0})
  restore_thread txs none = pure tt
  restore_thread txs (some d) =
      let numbers = d.kasplex_sidecar.numbers in
      if not (length numbers == 0) && (length numbers == length txs)
      then insert_each txs numbers
      else pure tt

  -- `process_kasplex_execution_data`
  unfoldable pub process_thread :
      ExecutionPayload V1 → Option (KasplexExecutionData V1) → Program (Result Error (Block Tx))
  process_thread v2 extra = pure (err base_fee_error)
  process_thread v3 extra = pure (err base_fee_error)
  process_thread (v1 payload) extra = elim (try_into_block payload) [
    | err e ↦ pure (err e)
    | ok converted ↦
        let block = fix_withdrawals_root blocks converted in
        do restore_thread block.transactions extra; take_each block.transactions; pure (ok block)
  ]

-- the lines of both loops of `handle_kasplex_pool_reorg` that test the number of a hash
unfoldable pub out_of_range : ℕ → ℕ → Bool
out_of_range new_head tx_number =
    if ltb 0 tx_number
    then if ltb (add_u64 tx_number unexecuted_tx_retention_blocks) new_head
      then true
      else if ltb new_head tx_number
      then true
      else false
    else false

unfoldable pub collect_each : ℕ → List ℕ → List ℕ → Program (List ℕ)
collect_each new_head [] acc = pure acc
collect_each new_head (h ∷ hs) acc = get_submission_block h λ o.
    collect_each new_head hs (if out_of_range new_head (unwrap_or o 0) then acc ++ h ∷ [] else acc)

-- `handle_kasplex_pool_reorg`, with the hashes of the transactions that it removes from the pool
unfoldable pub reorg_thread : (pool : Pool) → Bool → ℕ → pool.State → Program (List ℕ)
reorg_thread pool false new_head s = pure []
reorg_thread pool true new_head s = mark_start_pool_reorg (do
  from_pending ← collect_each new_head (pool.pending s) []
  txs_to_remove ← collect_each new_head (pool.queued s) from_pending
  mark_pool_reorged (pure txs_to_remove))

module _ (node : SendNode) where
  open node use {Recovered, State, hash, max_fee_per_gas, recover_raw_transaction, latest_header}

  unfoldable pub set_number_thread : Recovered → State → Program (Unit {0})
  set_number_thread recovered s = elim (latest_header s) [
    | none ↦ pure tt
    | some number ↦ insert (hash recovered) (add_u64 number 1) (pure tt)
  ]

  -- `send_raw_transaction`, up to the pool
  unfoldable pub send_thread : List ℕ → State → Program (Unit {0})
  send_thread tx s = if length tx == 0 then pure tt else elim (recover_raw_transaction tx) [
    | none ↦ pure tt
    | some recovered ↦
        if ltb (max_fee_per_gas recovered) min_l2_base_fee
        then pure tt
        else set_number_thread recovered s
  ]
