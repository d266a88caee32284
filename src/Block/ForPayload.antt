-- ===== src/Block/ForPayload.antt =====
-- crates/block/src/config.rs, `ConfigureEngineEvm`: what a payload of the engine API is executed in, and
-- with which transactions, against the same block as `ConfigureEvm` has it. reth's environments and
-- alloy's decoder are the parameters `Environments` and `Decoder`.
use kx_reth.Prelude.{
  ℕ, ◌≡◌, ◌<◌, refl, sym, none, some, List, [], ◌∷◌, map, arith, Result, ok, err, Result-cases, inl,
  inr,
}
use kx_reth.Prelude.Word.{u64_mod}
use kx_reth.Block.{Header, BlockEnv, BlockExecutionCtx}
use kx_reth.Block.Config.{v1, v2, v3, context_for_block, context_for_payload}
use kx_reth.Block.Executor.{
  Engine, Executor, new, apply_pre_execution_changes, execute_all,
  execute_transaction_without_commit, commit_transaction, finish,
}

-- `EthEvmConfig::evm_env` and `evm_env_for_payload`
pub record Environments : Type 1 where
  pub ExecutionData : Type 0
  pub inner_evm_env : Header → BlockEnv
  pub inner_evm_env_for_payload : ExecutionData → BlockEnv

module _ (environments : Environments) where
  open environments use {ExecutionData, inner_evm_env, inner_evm_env_for_payload}

  -- `evm_env` and `evm_env_for_payload`, which ask a new `EthEvmConfig`
  abbrev pub evm_env : Header → BlockEnv
  evm_env header = inner_evm_env header

  abbrev pub evm_env_for_payload : ExecutionData → BlockEnv
  evm_env_for_payload payload = inner_evm_env_for_payload payload

-- `TransactionSigned::decode_2718_exact` and the recovery of the signer
pub record Decoder : Type 1 where
  pub Tx : Type 0
  pub Error : Type 0
  pub decode_2718_exact : List ℕ → Result Error Tx
  pub try_recover : Tx → Result Error ℕ

module _ (decoder : Decoder) where
  open decoder use {Tx, Error, decode_2718_exact, try_recover}

  -- the closure of `tx_iterator_for_payload`: a transaction with its signer
  unfoldable pub decode_with_signer : List ℕ → Result Error (Tx × ℕ)
  decode_with_signer bytes = elim (decode_2718_exact bytes) [
    | err e ↦ err e
    | ok tx ↦ elim (try_recover tx) [ err e ↦ err e | ok signer ↦ ok (tx, signer) ]
  ]

  -- `tx_iterator_for_payload`: the closure is applied to each of the payload's transactions
  unfoldable pub tx_iterator_for_payload : List (List ℕ) → List (Result Error (Tx × ℕ))
  tx_iterator_for_payload transactions = map decode_with_signer transactions

  -- Transactions that are encoded and iterated over come back with their signers, all and in order.
  pub encoded_transactions_come_back :
      (encode : Tx → List ℕ) (signer : Tx → ℕ) (txs : List Tx)
      → ((tx : Tx) → decode_2718_exact (encode tx) ≡ ok tx)
      → ((tx : Tx) → try_recover tx ≡ ok (signer tx))
      → tx_iterator_for_payload (map encode txs) ≡ map (λ tx. ok (tx, signer tx)) txs
  unfolding tx_iterator_for_payload decode_with_signer
  encoded_transactions_come_back encode signer [] decodes recovers = refl
  encoded_transactions_come_back encode signer (tx ∷ txs) decodes recovers = ground (
    arith,
    decodes tx,
    recovers tx,
    encoded_transactions_come_back encode signer txs decodes recovers,
  )

module _ (engine : Engine) where
  open engine use {Evm, Tx, Error, Receipt}

  -- The executor's operations for a whole block, in the order in which reth calls them.
  abbrev pub execute_block : List Tx → Executor engine → Result Error (Evm × List Receipt × ℕ)
  execute_block txs x =
      let (prepared, x1) = apply_pre_execution_changes engine x in
      elim prepared [
        | err e ↦ err e
        | ok _ ↦
            let (executed, x2) = execute_all engine txs x1 in
            elim executed [ err e ↦ err e | ok gas ↦ ok (finish engine x2) ]
      ]

  execute_all_ctx :
      (txs : List Tx) (x : Executor engine) (c : BlockExecutionCtx)
      → execute_all engine txs (record x { ctx = c })
        ≡ ((execute_all engine txs x).0, record (execute_all engine txs x).1 { ctx = c })
  unfolding execute_all execute_transaction_without_commit commit_transaction
  execute_all_ctx [] x c = refl
  execute_all_ctx (tx ∷ txs) x c = elim (Result-cases (engine.transact tx x.evm).0) [
    | inr (e, q) ↦ ground (arith, q)
    | inl (out, q) ↦
        let x1 : Executor engine = record x { evm = (engine.transact tx x.evm).1 } in
        let x2 = (commit_transaction engine out tx x1).1 in
        let rest = execute_all_ctx txs x2 c in
        elim (Result-cases (execute_all engine txs x2).0) [
          | inr (e, r) ↦ ground (arith, q, rest, r)
          | inl (gas, r) ↦ ground (arith, q, rest, r)
        ]
  ]

  execute_block_ctx :
      (txs : List Tx) (evm : Evm) (c d : BlockExecutionCtx)
      → c.parent_hash ≡ d.parent_hash
      → c.parent_beacon_block_root ≡ d.parent_beacon_block_root
      → execute_block txs (new engine evm c) ≡ execute_block txs (new engine evm d)
  unfolding new apply_pre_execution_changes finish
  execute_block_ctx txs evm c d same_parent same_root =
      let flag = engine.is_spurious_dragon_active_at_block (engine.block_number evm) in
      let called =
        engine.apply_blockhashes_contract_call d.parent_hash engine.new_system_caller
          (engine.set_state_clear_flag flag evm) in
      elim (Result-cases called.0) [
        | inr (e, q) ↦ ground (arith, q, same_parent, same_root)
        | inl (u, q) ↦
            let rooted =
              engine.apply_beacon_root_contract_call d.parent_beacon_block_root called.1 called.2 in
            elim (Result-cases rooted.0) [
              | inr (e, r) ↦ ground (arith, q, r, same_parent, same_root)
              | inl (w, r) ↦
                  let x : Executor engine = record {
                    ctx = d;
                    evm = rooted.2;
                    system_caller = rooted.1;
                    receipts = [];
                    block_gas_used = 0;
                  } in
                  let moved = execute_all_ctx txs x c in
                  elim (Result-cases (execute_all engine txs x).0) [
                    | inr (e, s) ↦ ground (arith, q, r, s, moved, same_parent, same_root)
                    | inl (gas, s) ↦ ground (arith, q, r, s, moved, same_parent, same_root)
                  ]
            ]
      ]

  -- A payload names its parent, and of V1 the base fee fits a u64. Then it has a context; and where the
  -- block has no beacon root, its transactions are executed in this context exactly as in the context of
  -- the block: with the same error, or the same state, receipts and gas. It makes no difference that the
  -- two contexts disagree on the withdrawals, and of V2 and V3 on the base fee and the extra data.
  pub payload_executes_like_block :
      (txs : List Tx) (evm : Evm) (h : Header) (fee : ℕ) (extra : List ℕ)
      → h.parent_beacon_block_root ≡ none
      → fee < u64_mod
      → let in_block = execute_block txs (new engine evm (context_for_block h)) in
        (c1 : BlockExecutionCtx) × (c2 : BlockExecutionCtx) × (c3 : BlockExecutionCtx)
        × (context_for_payload (v1 h.parent_hash fee extra) ≡ some c1)
        × (context_for_payload (v2 h.parent_hash) ≡ some c2)
        × (context_for_payload (v3 h.parent_hash) ≡ some c3)
        × (execute_block txs (new engine evm c1) ≡ in_block)
        × (execute_block txs (new engine evm c2) ≡ in_block)
        × (execute_block txs (new engine evm c3) ≡ in_block)
  unfolding context_for_payload context_for_block
  payload_executes_like_block txs evm h fee extra no_root fits =
      let plain : BlockExecutionCtx = record {
        parent_hash = h.parent_hash;
        parent_beacon_block_root = none;
        ommers = [];
        withdrawals = none;
        basefee_per_gas = 0;
        extra_data = [];
      } in
      let named = record plain { basefee_per_gas = fee; extra_data = extra } in
      let block_ctx = context_for_block h in
      (
        named,
        plain,
        plain,
        ground (arith, fits),
        refl,
        refl,
        execute_block_ctx txs evm named block_ctx refl (sym no_root),
        execute_block_ctx txs evm plain block_ctx refl (sym no_root),
        execute_block_ctx txs evm plain block_ctx refl (sym no_root),
      )
