-- ===== src/Concurrent/Marks/Builds.antt =====
-- crates/payload/src/builder.rs: a build marks no reorganisation of the pool.
use kx_reth.Prelude.{
  ℕ, suc, Bool, List, [], ◌∷◌, get_elem?, Bool-cases, Option-cases, Result-cases, inl, inr,
}
use kx_reth.Prelude.Word.{to_u64}
use kx_reth.Block.{SealedHeader}
use kx_reth.Block.Config.{Cells, InnerConfig}
use kx_reth.Attributes.{Codec, BuilderAttributes}
use kx_reth.Payload.{
  Builder, Built, LoopExit, done, cancelled, panicked, fatal, invalid_tx,
  transaction_gas_limit_more_than_available_block_gas, other, open_block,
}
use kx_reth.Concurrent.Builds.{loop_thread, store_each, finish_thread, build_thread}
use kx_reth.Concurrent.Marks.{Paired, bind-Paired}

module _ (codec : Codec) (builder : Builder codec.Recovered) where
  open codec use {Recovered}
  open builder use {
    effective_tip_per_gas, execute_transaction, finish, transactions, state_by_block_hash,
    apply_pre_execution_changes,
  }

  loop_thread-Paired :
      (is_cancelled : ℕ → Bool) (base_fee i : ℕ) (txs : List Recovered) (b : Built codec builder)
      → Paired (loop_thread codec builder is_cancelled base_fee i txs b)
  unfolding loop_thread
  loop_thread-Paired is_cancelled base_fee i [] b = tt
  loop_thread-Paired is_cancelled base_fee i (tx ∷ txs) b =
      let rec = loop_thread-Paired is_cancelled base_fee (suc i) txs in
      elim (Bool-cases (is_cancelled i)) [
        | inl q ↦ rw (loop_thread, q) tt
        | inr q ↦
            rw (loop_thread, q)
              λ o. elim (Result-cases (execute_transaction tx b.state).0) [
                | inr (invalid_tx, r) ↦ rw (loop_thread, r) (rec _)
                | inr (transaction_gas_limit_more_than_available_block_gas, r) ↦
                    rw (loop_thread, r) (rec _)
                | inr (other e, r) ↦ rw (loop_thread, r) tt
                | inl (gas, r) ↦ elim (Option-cases (effective_tip_per_gas tx base_fee)) [
                  | inl t ↦ rw (loop_thread, r, t) tt
                  | inr (tip, t) ↦ rw (loop_thread, r, t) (rec _)
                ]
              ]
      ]

  store_each-Paired :
      (txs : List Recovered) (i : ℕ) (ns : List ℕ) → Paired (store_each codec builder txs i ns)
  unfolding store_each
  store_each-Paired txs i [] = tt
  store_each-Paired txs i (n ∷ ns) = elim (Option-cases (get_elem? txs i)) [
    | inl q ↦ rw (store_each, q) (store_each-Paired txs (suc i) ns)
    | inr (tx, q) ↦ rw (store_each, q) (store_each-Paired txs (suc i) ns)
  ]

  finish_thread-Paired :
      (attributes : BuilderAttributes codec) (provider : builder.Provider)
      (exit : LoopExit codec builder)
      → Paired (finish_thread codec builder attributes provider exit)
  unfolding finish_thread
  finish_thread-Paired attributes provider cancelled = tt
  finish_thread-Paired attributes provider panicked = tt
  finish_thread-Paired attributes provider (fatal e) = tt
  finish_thread-Paired attributes provider (done b) =
      elim (Result-cases (finish provider b.state)) [
        | inr (e, q) ↦ rw (finish_thread, q) tt
        | inl (block, q) ↦
            rw (finish_thread, q)
              (bind-Paired (store_each codec builder (transactions block) 0 b.transaction_numbers) _
                (store_each-Paired (transactions block) 0 b.transaction_numbers) (λ u. tt))
      ]

  pub build_thread-Paired :
      (inner : InnerConfig) (parent : SealedHeader) (attributes : BuilderAttributes codec)
      (is_cancelled : ℕ → Bool) (cells : Cells)
      → Paired (build_thread codec builder inner parent attributes is_cancelled cells)
  unfolding build_thread
  build_thread-Paired inner parent attributes is_cancelled cells =
      elim (Result-cases (state_by_block_hash parent.hash)) [
        | inr (e, q) ↦ rw (build_thread, q) tt
        | inl (provider, q) ↦ elim (Option-cases (to_u64 attributes.base_fee_per_gas)) [
          | inl r ↦ rw (build_thread, q, r) tt
          | inr (fee, r) ↦
              let s0 = (open_block codec builder inner parent attributes provider fee cells).0 in
              elim (Result-cases (apply_pre_execution_changes s0).0) [
                | inr (e, w) ↦ rw (build_thread, q, r, w) tt
                | inl (u, w) ↦
                    let start : Built codec builder = record {
                      state = (apply_pre_execution_changes s0).1;
                      total_fees = 0;
                      transaction_numbers = [];
                    } in
                    rw (build_thread, q, r, w)
                      (bind-Paired
                        (loop_thread codec builder is_cancelled fee 0 attributes.transactions start)
                        _ (loop_thread-Paired is_cancelled fee 0 attributes.transactions start)
                        (λ exit. finish_thread-Paired attributes provider exit))
              ]
        ]
      ]
