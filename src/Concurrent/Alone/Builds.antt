-- ===== src/Concurrent/Alone/Builds.antt =====
-- crates/payload/src/builder.rs: a build that runs with no other thread in between, against the build as
-- one step on the mapping.
use kx_reth.Prelude.{
  ℕ, suc, ◌≡◌, refl, ◌∙◌, Bool, List, [], ◌∷◌, get_elem?, Bool-cases, Option-cases, Result-cases,
  inl, inr,
}
use kx_reth.Prelude.Word.{to_u64}
use kx_reth.TxMapping.{TxMapping}
use kx_reth.Block.{SealedHeader}
use kx_reth.Block.Config.{Cells, InnerConfig}
use kx_reth.Attributes.{Codec, BuilderAttributes}
use kx_reth.Payload.{
  Builder, Built, LoopExit, done, cancelled, panicked, fatal, invalid_tx,
  transaction_gas_limit_more_than_available_block_gas, other, extract_transaction_number,
  execute_all_transactions, store_numbers, finish_payload, open_block, kasplex_payload,
}
use kx_reth.Concurrent.Program.{run_alone, run_alone-bind}
use kx_reth.Concurrent.Builds.{loop_thread, store_each, finish_thread, build_thread}

module _ (codec : Codec) (builder : Builder codec.Recovered) where
  open codec use {Recovered}
  open builder use {
    hash, effective_tip_per_gas, execute_transaction, finish, transactions, state_by_block_hash,
    apply_pre_execution_changes,
  }

  loop_thread_alone :
      (is_cancelled : ℕ → Bool) (base_fee : ℕ) (m : TxMapping) (i : ℕ) (txs : List Recovered)
      (b : Built codec builder)
      → run_alone (loop_thread codec builder is_cancelled base_fee i txs b) m
        ≡ (execute_all_transactions codec builder is_cancelled base_fee m i txs b, m)
  unfolding run_alone loop_thread execute_all_transactions extract_transaction_number
  loop_thread_alone is_cancelled base_fee m i [] b = refl
  loop_thread_alone is_cancelled base_fee m i (tx ∷ txs) b =
      let rec = loop_thread_alone is_cancelled base_fee m (suc i) txs in
      elim (Bool-cases (is_cancelled i)) [
        | inl q ↦ rw (loop_thread, execute_all_transactions, q) refl
        | inr q ↦ elim (Result-cases (execute_transaction tx b.state).0) [
          | inr (invalid_tx, r) ↦
              rw (loop_thread, execute_all_transactions, q, run_alone, r) (rec _)
          | inr (transaction_gas_limit_more_than_available_block_gas, r) ↦
              rw (loop_thread, execute_all_transactions, q, run_alone, r) (rec _)
          | inr (other e, r) ↦ rw (loop_thread, execute_all_transactions, q, run_alone, r) refl
          | inl (gas, r) ↦ elim (Option-cases (effective_tip_per_gas tx base_fee)) [
            | inl t ↦ rw (loop_thread, execute_all_transactions, q, run_alone, r, t) refl
            | inr (tip, t) ↦ rw (loop_thread, execute_all_transactions, q, run_alone, r, t) (rec _)
          ]
        ]
      ]

  store_each_alone :
      (txs : List Recovered) (i : ℕ) (ns : List ℕ) (m : TxMapping)
      → run_alone (store_each codec builder txs i ns) m
        ≡ (tt, store_numbers codec builder txs i ns m)
  unfolding run_alone store_each store_numbers
  store_each_alone txs i [] m = refl
  store_each_alone txs i (n ∷ ns) m = elim (Option-cases (get_elem? txs i)) [
    | inl q ↦ rw (store_each, store_numbers, q) (store_each_alone txs (suc i) ns m)
    | inr (tx, q) ↦ rw (store_each, store_numbers, q) (store_each_alone txs (suc i) ns _)
  ]

  finish_thread_alone :
      (attributes : BuilderAttributes codec) (provider : builder.Provider) (cells : Cells)
      (m : TxMapping) (exit : LoopExit codec builder)
      → let finished = finish_payload codec builder attributes provider cells m exit in
        run_alone (finish_thread codec builder attributes provider exit) m
        ≡ (finished.0, finished.2)
  unfolding run_alone finish_thread finish_payload
  finish_thread_alone attributes provider cells m cancelled = refl
  finish_thread_alone attributes provider cells m panicked = refl
  finish_thread_alone attributes provider cells m (fatal e) = refl
  finish_thread_alone attributes provider cells m (done b) =
      elim (Result-cases (finish provider b.state)) [
        | inr (e, q) ↦ rw (finish_thread, finish_payload, q) refl
        | inl (block, q) ↦
            rw
              (
                finish_thread,
                finish_payload,
                q,
                run_alone-bind
                    (store_each codec builder (transactions block) 0 b.transaction_numbers) _ m,
                store_each_alone (transactions block) 0 b.transaction_numbers m,
              )
              refl
      ]

  -- What a build returns, and the mapping that it leaves.
  pub build_thread_alone :
      (inner : InnerConfig) (parent : SealedHeader) (attributes : BuilderAttributes codec)
      (is_cancelled : ℕ → Bool) (cells : Cells) (m : TxMapping)
      → let built = kasplex_payload codec builder inner parent attributes is_cancelled cells m in
        run_alone (build_thread codec builder inner parent attributes is_cancelled cells) m
        ≡ (built.0, built.2)
  unfolding run_alone build_thread kasplex_payload
  build_thread_alone inner parent attributes is_cancelled cells m =
      elim (Result-cases (state_by_block_hash parent.hash)) [
        | inr (e, q) ↦ rw (build_thread, kasplex_payload, q) refl
        | inl (provider, q) ↦ elim (Option-cases (to_u64 attributes.base_fee_per_gas)) [
          | inl r ↦ rw (build_thread, kasplex_payload, q, r) refl
          | inr (fee, r) ↦
              let opened = open_block codec builder inner parent attributes provider fee cells in
              elim (Result-cases (apply_pre_execution_changes opened.0).0) [
                | inr (e, w) ↦ rw (build_thread, kasplex_payload, q, r, w) refl
                | inl (u, w) ↦
                    let start : Built codec builder = record {
                      state = (apply_pre_execution_changes opened.0).1;
                      total_fees = 0;
                      transaction_numbers = [];
                    } in
                    rw (build_thread, kasplex_payload, q, r, w)
                      (run_alone-bind
                          (loop_thread codec builder is_cancelled fee 0 attributes.transactions
                            start)
                          _ m
                        ∙ rw (loop_thread_alone is_cancelled fee m 0 attributes.transactions start)
                            (finish_thread_alone attributes provider opened.1 m _))
              ]
        ]
      ]
