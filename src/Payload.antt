-- ===== src/Payload.antt =====
-- crates/payload/src/builder.rs: a block is built from the attributes of the engine API. reth's block
-- builder and the state provider are the parameter `Builder`; the cells of the EVM configuration and the
-- transaction mapping are the state. The build is one step on both: other threads are not modelled.
pub mod Opening
pub mod Loop
pub mod Mapping
pub mod Threads
pub mod Total
pub mod FixedFee
pub mod Service
use kx_reth.Prelude.{
  ℕ, suc, ◌≡◌, Bool, true, false, Option, none, some, List, [], ◌∷◌, ◌++◌, map, get_elem?, length,
  unwrap_or, Result, ok, err, drop_last,
}
use kx_reth.Prelude.Word.{add_u256, mul_u256, to_u64}
use kx_reth.TxMapping
use kx_reth.TxMapping.{TxMapping}
use kx_reth.Block.{SealedHeader, BlockEnv, BlockExecutionCtx, NextBlockEnvAttributes}
use kx_reth.Block.Config.{
  Cells, InnerConfig, set_next_block_extra_data, set_next_block_base_fee_per_gas,
  clear_next_block_extra_data, clear_next_block_base_fee_per_gas, next_evm_env,
  context_for_next_block,
}
use kx_reth.Attributes.{Codec, BuilderAttributes}

-- reth's `BlockExecutionError`, as far as the loop tells its cases apart
pub data ExecutionError : Type 0 where
  invalid_tx transaction_gas_limit_more_than_available_block_gas : ExecutionError
  other : ℕ → ExecutionError

-- reth's block builder. `executed` lists the transactions that it has taken into the block, with the
-- gas each used: one is appended when its execution succeeds, none is when it fails.
pub record Builder (Tx : Type 0) : Type 1 where
  pub Provider : Type 0
  pub State : Type 0
  pub Error : Type 0
  pub Block : Type 0
  pub hash : Tx → ℕ
  pub effective_tip_per_gas : Tx → ℕ → Option ℕ
  pub state_by_block_hash : ℕ → Result Error Provider
  pub create_block_builder : Provider → BlockEnv → SealedHeader → BlockExecutionCtx → State
  pub apply_pre_execution_changes : State → Result Error (Unit {0}) × State
  pub execute_transaction : Tx → State → Result ExecutionError ℕ × State
  pub finish : Provider → State → Result Error Block
  pub transactions : Block → List Tx
  pub executed : State → List (Tx × ℕ)
  pub created_lem :
      (p : Provider) (env : BlockEnv) (parent : SealedHeader) (ctx : BlockExecutionCtx)
      → executed (create_block_builder p env parent ctx) ≡ []
  pub pre_execution_lem : (s : State) → executed (apply_pre_execution_changes s).1 ≡ executed s
  pub execute_ok_lem :
      (tx : Tx) (s : State) (gas : ℕ)
      → (execute_transaction tx s).0 ≡ ok gas
      → executed (execute_transaction tx s).1 ≡ executed s ++ (tx, gas) ∷ []
  pub execute_err_lem :
      (tx : Tx) (s : State) (e : ExecutionError)
      → (execute_transaction tx s).0 ≡ err e
      → executed (execute_transaction tx s).1 ≡ executed s
  pub finish_lem :
      (p : Provider) (s : State) (b : Block)
      → finish p s ≡ ok b
      → transactions b ≡ map (λ (e : Tx × ℕ). e.0) (executed s)

module _ (codec : Codec) (builder : Builder codec.Recovered) where
  open codec use {Recovered}
  open builder use {
    State, Error, Block, hash, effective_tip_per_gas, state_by_block_hash, create_block_builder,
    apply_pre_execution_changes, execute_transaction, finish, transactions,
  }

  -- the local variables of the loop
  pub record Built : Type 0 where
    pub state : State
    pub total_fees : ℕ
    pub transaction_numbers : List ℕ

  -- how the loop is left; `panicked` is the failed `expect`
  pub data LoopExit : Type 0 where
    done : Built → LoopExit
    cancelled panicked : LoopExit
    fatal : ℕ → LoopExit

  -- `extract_transaction_number`
  unfoldable pub extract_transaction_number : TxMapping → Recovered → ℕ
  extract_transaction_number m tx = unwrap_or (TxMapping.get_submission_block (hash tx) m) 0

  -- The loop over `attributes.transactions`. `is_cancelled i` is what the job's flag says when it is
  -- read for the i-th time.
  unfoldable pub execute_all_transactions :
      (ℕ → Bool) → ℕ → TxMapping → ℕ → List Recovered → Built → LoopExit
  execute_all_transactions is_cancelled base_fee m i [] b = done b
  execute_all_transactions is_cancelled base_fee m i (tx ∷ txs) b = elim (is_cancelled i) [
    | true ↦ cancelled
    | false ↦
        let pushed = b.transaction_numbers ++ extract_transaction_number m tx ∷ [] in
        let (r, s) = execute_transaction tx b.state in
        let popped : Built = record {
          state = s;
          total_fees = b.total_fees;
          transaction_numbers = drop_last pushed;
        } in
        elim r [
          | ok gas_used ↦ elim (effective_tip_per_gas tx base_fee) [
            | none ↦ panicked
            | some miner_fee ↦
                execute_all_transactions is_cancelled base_fee m (suc i) txs (record {
                  state = s;
                  total_fees = add_u256 b.total_fees (mul_u256 miner_fee gas_used);
                  transaction_numbers = pushed;
                })
          ]
          | err invalid_tx ↦ execute_all_transactions is_cancelled base_fee m (suc i) txs popped
          | err transaction_gas_limit_more_than_available_block_gas ↦
              execute_all_transactions is_cancelled base_fee m (suc i) txs popped
          | err (other e) ↦ fatal e
        ]
  ]

  -- `for (idx, number) in transaction_numbers.iter().enumerate()`
  unfoldable pub store_numbers : List Recovered → ℕ → List ℕ → TxMapping → TxMapping
  store_numbers txs idx [] m = m
  store_numbers txs idx (number ∷ numbers) m =
      let m' : TxMapping = elim (get_elem? txs idx) [
        | none ↦ m
        | some tx ↦ TxMapping.insert (hash tx) number m
      ] in
      store_numbers txs (suc idx) numbers m'

  -- `EthBuiltPayload`
  pub record BuiltPayload : Type 0 where
    pub id : List ℕ
    pub block : Block
    pub fees : ℕ

  -- `Result<BuildOutcome, PayloadBuilderError>`, and the panic
  pub data Outcome : Type 0 where
    freeze : BuiltPayload → Outcome
    build_cancelled build_panicked : Outcome
    failed : Error → Outcome
    evm_failed : ℕ → Outcome

  -- from the call of `finish` on
  unfoldable pub finish_payload :
      BuilderAttributes codec
      → builder.Provider
      → Cells
      → TxMapping
      → LoopExit
      → Outcome × Cells × TxMapping
  finish_payload attributes provider cells m cancelled = (build_cancelled, cells, m)
  finish_payload attributes provider cells m panicked = (build_panicked, cells, m)
  finish_payload attributes provider cells m (fatal e) = (evm_failed e, cells, m)
  finish_payload attributes provider cells m (done b) = elim (finish provider b.state) [
    | err e ↦ (failed e, cells, m)
    | ok block ↦ (
      freeze (record { id = attributes.payload_attributes.id; block = block; fees = b.total_fees }),
      cells,
      store_numbers (transactions block) 0 b.transaction_numbers m,
    )
  ]

  -- the arguments of `builder_for_next_block`
  unfoldable pub next_block_attributes : BuilderAttributes codec → NextBlockEnvAttributes
  next_block_attributes attributes = record {
    timestamp = attributes.timestamp;
    suggested_fee_recipient = attributes.beneficiary;
    prev_randao = attributes.mix_hash;
    gas_limit = attributes.gas_limit;
    parent_beacon_block_root = attributes.payload_attributes.parent_beacon_block_root;
    withdrawals = some attributes.payload_attributes.withdrawals;
    extra_data = [];
  }

  -- The cells are set, the block builder is made, and the cells are cleared. reth's
  -- `builder_for_next_block` asks the configuration for the environment and the context, whose error
  -- type is `Infallible`.
  unfoldable pub open_block :
      InnerConfig
      → SealedHeader
      → BuilderAttributes codec
      → builder.Provider
      → ℕ
      → Cells
      → State × Cells
  open_block inner parent attributes provider base_fee cells =
      let cells1 = set_next_block_extra_data attributes.extra_data cells in
      let cells2 = set_next_block_base_fee_per_gas base_fee cells1 in
      let env = next_evm_env inner cells2 parent.header (next_block_attributes attributes) in
      let ctx = context_for_next_block cells2 parent in
      let cells3 = clear_next_block_extra_data cells2 in
      (create_block_builder provider env parent ctx, clear_next_block_base_fee_per_gas cells3)

  -- `kasplex_payload`
  unfoldable pub kasplex_payload :
      InnerConfig
      → SealedHeader
      → BuilderAttributes codec
      → (ℕ → Bool)
      → Cells
      → TxMapping
      → Outcome × Cells × TxMapping
  kasplex_payload inner parent attributes is_cancelled cells m =
      elim (state_by_block_hash parent.hash) [
        | err e ↦ (failed e, cells, m)
        | ok provider ↦ elim (to_u64 attributes.base_fee_per_gas) [
          | none ↦ (build_panicked, cells, m)
          | some base_fee ↦
              let (s0, cells') = open_block inner parent attributes provider base_fee cells in
              let (r, s1) = apply_pre_execution_changes s0 in
              elim r [
                | err e ↦ (failed e, cells', m)
                | ok _ ↦
                    let start : Built = record {
                      state = s1;
                      total_fees = 0;
                      transaction_numbers = [];
                    } in
                    finish_payload attributes provider cells' m (
                      execute_all_transactions is_cancelled base_fee m 0 attributes.transactions
                        start)
              ]
        ]
      ]
