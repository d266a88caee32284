-- ===== src/Concurrent/Builds.antt =====
-- crates/payload/src/builder.rs: the calls on the mapping that a build makes.
use kx_reth.Prelude.{
  ℕ, suc, Bool, true, false, none, some, List, [], ◌∷◌, ◌++◌, get_elem?, drop_last, unwrap_or, ok,
  err,
}
use kx_reth.Prelude.Word.{add_u256, mul_u256, to_u64}
use kx_reth.Block.{SealedHeader}
use kx_reth.Block.Config.{Cells, InnerConfig}
use kx_reth.Attributes.{Codec, BuilderAttributes}
use kx_reth.Payload.{
  Builder, Built, LoopExit, done, cancelled, panicked, fatal, invalid_tx,
  transaction_gas_limit_more_than_available_block_gas, other, BuiltPayload, Outcome, freeze,
  build_cancelled, build_panicked, failed, evm_failed, open_block,
}
use kx_reth.Concurrent.Program.{Program, pure, get_submission_block, insert, ◌>>=◌, ◌>>◌}

module _ (codec : Codec) (builder : Builder codec.Recovered) where
  open codec use {Recovered}
  open builder use {
    Provider, hash, effective_tip_per_gas, state_by_block_hash, apply_pre_execution_changes,
    execute_transaction, finish, transactions,
  }

  -- The loop over `attributes.transactions`: the number is read before the transaction is executed.
  unfoldable pub loop_thread :
      (ℕ → Bool) → ℕ → ℕ → List Recovered → Built codec builder → Program (LoopExit codec builder)
  loop_thread is_cancelled base_fee i [] b = pure (done b)
  loop_thread is_cancelled base_fee i (tx ∷ txs) b = elim (is_cancelled i) [
    | true ↦ pure cancelled
    | false ↦ get_submission_block (hash tx) λ o.
        let pushed = b.transaction_numbers ++ unwrap_or o 0 ∷ [] in
        let (r, s) = execute_transaction tx b.state in
        let popped : Built codec builder = record {
          state = s;
          total_fees = b.total_fees;
          transaction_numbers = drop_last pushed;
        } in
        elim r [
          | ok gas_used ↦ elim (effective_tip_per_gas tx base_fee) [
            | none ↦ pure panicked
            | some miner_fee ↦ loop_thread is_cancelled base_fee (suc i) txs (record {
              state = s;
              total_fees = add_u256 b.total_fees (mul_u256 miner_fee gas_used);
              transaction_numbers = pushed;
            })
          ]
          | err invalid_tx ↦ loop_thread is_cancelled base_fee (suc i) txs popped
          | err transaction_gas_limit_more_than_available_block_gas ↦
              loop_thread is_cancelled base_fee (suc i) txs popped
          | err (other e) ↦ pure (fatal e)
        ]
  ]

  -- `for (idx, number) in transaction_numbers.iter().enumerate()`
  unfoldable pub store_each : List Recovered → ℕ → List ℕ → Program (Unit {0})
  store_each txs idx [] = pure tt
  store_each txs idx (number ∷ numbers) =
      let rest = store_each txs (suc idx) numbers in
      elim (get_elem? txs idx) [ none ↦ rest | some tx ↦ insert (hash tx) number rest ]

  -- from the loop's end on
  unfoldable pub finish_thread :
      BuilderAttributes codec → Provider → LoopExit codec builder → Program (Outcome codec builder)
  finish_thread attributes provider cancelled = pure build_cancelled
  finish_thread attributes provider panicked = pure build_panicked
  finish_thread attributes provider (fatal e) = pure (evm_failed e)
  finish_thread attributes provider (done b) = elim (finish provider b.state) [
    | err e ↦ pure (failed e)
    | ok block ↦ do
      store_each (transactions block) 0 b.transaction_numbers
      let payload : BuiltPayload codec builder = record {
        id = attributes.payload_attributes.id;
        block = block;
        fees = b.total_fees;
      }
      pure (freeze payload)
  ]

  -- `kasplex_payload`, on the cells as the build finds them
  unfoldable pub build_thread :
      InnerConfig
      → SealedHeader
      → BuilderAttributes codec
      → (ℕ → Bool)
      → Cells
      → Program (Outcome codec builder)
  build_thread inner parent attributes is_cancelled cells = elim (state_by_block_hash parent.hash) [
    | err e ↦ pure (failed e)
    | ok provider ↦ elim (to_u64 attributes.base_fee_per_gas) [
      | none ↦ pure build_panicked
      | some base_fee ↦
          let s0 = (open_block codec builder inner parent attributes provider base_fee cells).0 in
          let (r, s1) = apply_pre_execution_changes s0 in
          elim r [
            | err e ↦ pure (failed e)
            | ok _ ↦
                let start : Built codec builder = record {
                  state = s1;
                  total_fees = 0;
                  transaction_numbers = [];
                } in
                do
                  exit ← loop_thread is_cancelled base_fee 0 attributes.transactions start
                  finish_thread attributes provider exit
          ]
    ]
  ]
