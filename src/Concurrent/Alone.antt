-- ===== src/Concurrent/Alone.antt =====
-- A thread that runs with no other thread in between, against the operation as one step on the mapping:
-- the two models of crates/rpc, crates/payload, crates/primitives and crates/txpool agree.
pub mod Builds
use kx_reth.Prelude.{
  ℕ, suc, ◌≡◌, refl, ap, ◌∙◌, Bool, true, false, Option, none, some, List, [], ◌∷◌, ◌++◌, map,
  arith, not, ◌&&◌, ◌==◌, length, get_elem?, drop_last, ltb, unwrap_or, if◌then◌else◌, ok, err,
  Bool-cases, Option-cases, Result-cases, inl, inr,
}
use kx_reth.Prelude.Word.{to_u64}
use kx_reth.TxMapping
use kx_reth.TxMapping.{TxMapping}
use kx_reth.TxPool.{Pool, to_remove, collect_expired, remove_collected, handle_kasplex_pool_reorg}
use kx_reth.Block.{SealedHeader}
use kx_reth.Block.Config.{Cells, InnerConfig}
use kx_reth.Attributes.{Codec, BuilderAttributes}
use kx_reth.Payload.{
  Builder, Built, LoopExit, done, cancelled, panicked, fatal, invalid_tx,
  transaction_gas_limit_more_than_available_block_gas, other, extract_transaction_number,
  execute_all_transactions, store_numbers, finish_payload, open_block, kasplex_payload,
}
use kx_reth.Engine.{
  Block, Blocks, ExecutionPayload, v1, v2, v3, KasplexExecutionData, insert_all, take_all,
  restore_numbers, fix_withdrawals_root, block_to_payload, process_kasplex_execution_data,
}
use kx_reth.Auth.{SendNode, min_l2_base_fee, set_transaction_number, send_raw_transaction}
use kx_reth.Auth.Send.{submit-mapping}
use kx_reth.Concurrent.Program.{Program, run_alone, run_alone-bind}
use kx_reth.Concurrent.Threads.{
  insert_each, read_each, take_each, payload_thread, restore_thread, process_thread, out_of_range,
  collect_each, reorg_thread, set_number_thread, send_thread,
}
use kx_reth.Concurrent.Builds.{loop_thread, store_each, finish_thread, build_thread}

module _ (blocks : Blocks) where
  open blocks use {Tx, hash, try_into_block}

  insert_each_alone :
      (txs : List Tx) (ns : List ℕ) (m : TxMapping)
      → run_alone (insert_each blocks txs ns) m ≡ (tt, insert_all blocks txs ns m)
  unfolding run_alone insert_each insert_all
  insert_each_alone [] ns m = refl
  insert_each_alone (tx ∷ txs) [] m = refl
  insert_each_alone (tx ∷ txs) (n ∷ ns) m = insert_each_alone txs ns _

  read_each_alone :
      (txs : List Tx) (m : TxMapping)
      → run_alone (read_each blocks txs) m
        ≡ (map (λ tx. unwrap_or (TxMapping.get_submission_block (hash tx) m) 0) txs, m)
  unfolding run_alone read_each
  read_each_alone [] m = refl
  read_each_alone (tx ∷ txs) m =
      run_alone-bind (read_each blocks txs) _ m ∙ rw (read_each_alone txs m) refl

  take_each_alone :
      (txs : List Tx) (m : TxMapping)
      → run_alone (take_each blocks txs) m ≡ (tt, take_all blocks txs m)
  unfolding run_alone take_each take_all
  take_each_alone [] m = refl
  take_each_alone (tx ∷ txs) m = take_each_alone txs _

  pub payload_thread_alone :
      (b : Block Tx) (m : TxMapping)
      → run_alone (payload_thread blocks b) m ≡ block_to_payload blocks b m
  unfolding run_alone payload_thread block_to_payload
  payload_thread_alone b m =
      run_alone-bind (read_each blocks b.transactions) _ m
      ∙ rw (read_each_alone b.transactions m) (
          run_alone-bind (insert_each blocks b.transactions _) _ m
          ∙ rw (insert_each_alone b.transactions _ m) refl)

  restore_thread_alone :
      (txs : List Tx) (extra : Option (KasplexExecutionData blocks.V1)) (m : TxMapping)
      → run_alone (restore_thread blocks txs extra) m ≡ (
        tt,
        elim extra [ none ↦ m | some d ↦ restore_numbers blocks txs d.kasplex_sidecar.numbers m ],
      )
  unfolding run_alone restore_thread restore_numbers
  restore_thread_alone txs none m = refl
  restore_thread_alone txs (some d) m =
      ground (arith, insert_each_alone txs d.kasplex_sidecar.numbers m)

  pub process_thread_alone :
      (p : ExecutionPayload blocks.V1) (extra : Option (KasplexExecutionData blocks.V1))
      (m : TxMapping)
      → run_alone (process_thread blocks p extra) m
        ≡ process_kasplex_execution_data blocks p extra m
  unfolding run_alone process_thread process_kasplex_execution_data
  process_thread_alone v2 extra m = refl
  process_thread_alone v3 extra m = refl
  process_thread_alone (v1 p) extra m = elim (Result-cases (try_into_block p)) [
    | inr (e, q) ↦ ground (arith, q)
    | inl (b, q) ↦
        let txs = (fix_withdrawals_root blocks b).transactions in
        rw (process_thread, process_kasplex_execution_data, q)
          (run_alone-bind (restore_thread blocks txs extra) _ m
            ∙ rw (restore_thread_alone txs extra m)
                (run_alone-bind (take_each blocks txs) _ _ ∙ rw (take_each_alone txs) refl))
  ]

module _ (pool : Pool) where
  collect_each_alone :
      (new_head : ℕ) (hs acc : List ℕ) (m : TxMapping)
      → run_alone (collect_each new_head hs acc) m ≡ (collect_expired m new_head hs acc, m)
  unfolding run_alone collect_each collect_expired out_of_range to_remove
  collect_each_alone new_head [] acc m = refl
  collect_each_alone new_head (h ∷ hs) acc m = collect_each_alone new_head hs _ m

  -- The mapping and the hashes that are taken out of the pool.
  pub reorg_thread_alone :
      (is_kasplex : Bool) (new_head : ℕ) (m : TxMapping) (s : pool.State)
      → let (removed, m') = run_alone (reorg_thread pool is_kasplex new_head s) m in
        (m', remove_collected pool removed s)
        ≡ handle_kasplex_pool_reorg pool is_kasplex new_head m s
  unfolding run_alone reorg_thread handle_kasplex_pool_reorg remove_collected
  reorg_thread_alone false new_head m s = refl
  reorg_thread_alone true new_head m s =
      let m1 = TxMapping.mark_start_pool_reorg m in
      rw
        (
          run_alone-bind (collect_each new_head (pool.pending s) []) _ m1,
          collect_each_alone new_head (pool.pending s) [] m1,
          run_alone-bind (collect_each new_head (pool.queued s) _) _ m1,
          collect_each_alone new_head (pool.queued s) _ m1,
        )
        refl

module _ (node : SendNode) where
  open node use {State, hash, max_fee_per_gas, recover_raw_transaction, latest_header}

  set_number_thread_alone :
      (tx : node.Recovered) (m : TxMapping) (st : State)
      → (run_alone (set_number_thread node tx st) m).1 ≡ set_transaction_number node tx st m
  unfolding run_alone set_number_thread set_transaction_number
  set_number_thread_alone tx m st = ground (arith, Option-cases (latest_header st))

  pub send_thread_alone :
      (raw : List ℕ) (m : TxMapping) (st : State)
      → (run_alone (send_thread node raw st) m).1 ≡ (send_raw_transaction node raw m st).1
  unfolding run_alone send_thread send_raw_transaction
  send_thread_alone raw m st = elim (Bool-cases (length raw == 0)) [
    | inl q ↦ ground (arith, q)
    | inr q ↦ elim (Option-cases (recover_raw_transaction raw)) [
      | inl r ↦ ground (arith, q, r)
      | inr (tx, r) ↦ ground (
        arith,
        q,
        r,
        set_number_thread_alone tx m st,
        submit-mapping node tx (set_transaction_number node tx st m) st,
      )
    ]
  ]
