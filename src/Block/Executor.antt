-- ===== src/Block/Executor.antt =====
-- crates/block/src/executor.rs: a block is executed transaction by transaction. The EVM, reth's system
-- calls and the receipt builder are the parameter `Engine`.
pub mod Gas
use kx_reth.Prelude.{ℕ, ◌≡◌, Bool, Option, List, [], ◌∷◌, ◌++◌, length, Result, ok, err}
use kx_reth.Prelude.Word.{add_u64}
use kx_reth.Block.{BlockExecutionCtx}

pub record Engine : Type 1 where
  pub Evm : Type 0
  pub Tx : Type 0
  pub Error : Type 0
  -- revm's `ExecutionResult` and the changed accounts
  pub Outcome : Type 0
  pub Changes : Type 0
  pub Receipt : Type 0
  pub block_number : Evm → ℕ
  pub is_spurious_dragon_active_at_block : ℕ → Bool
  pub set_state_clear_flag : Bool → Evm → Evm
  -- `SystemCaller`, which tells the state hook, if there is one, of each change
  pub SystemCaller : Type 0
  pub StateHook : Type 0
  pub new_system_caller : SystemCaller
  pub with_state_hook : Option StateHook → SystemCaller → SystemCaller
  -- the changes of the transaction at an index
  pub on_state : ℕ → Changes → SystemCaller → SystemCaller
  pub apply_blockhashes_contract_call :
      ℕ → SystemCaller → Evm → Result Error (Unit {0}) × SystemCaller × Evm
  pub apply_beacon_root_contract_call :
      Option ℕ → SystemCaller → Evm → Result Error (Unit {0}) × SystemCaller × Evm
  pub transact : Tx → Evm → Result Error (Outcome × Changes) × Evm
  pub commit : Changes → Evm → Evm
  pub gas_used : Outcome → ℕ
  -- from the transaction, the EVM, the outcome, the changes and the gas used so far
  pub build_receipt : Tx → Evm → Outcome → Changes → ℕ → Receipt
  pub cumulative_gas_used : Receipt → ℕ
  pub build_receipt_lem :
      (tx : Tx) (evm : Evm) (o : Outcome) (c : Changes) (n : ℕ)
      → cumulative_gas_used (build_receipt tx evm o c n) ≡ n

module _ (engine : Engine) where
  open engine use {
    Evm, Tx, Error, Outcome, Changes, Receipt, block_number, is_spurious_dragon_active_at_block,
    set_state_clear_flag, SystemCaller, StateHook, new_system_caller, with_state_hook, on_state,
    apply_blockhashes_contract_call, apply_beacon_root_contract_call, transact, commit, gas_used,
    build_receipt,
  }

  -- `KasplexBlockExecutor`
  pub record Executor : Type 0 where
    pub ctx : BlockExecutionCtx
    pub evm : Evm
    pub system_caller : SystemCaller
    pub receipts : List Receipt
    pub block_gas_used : ℕ

  -- `KasplexBlockExecutor::new`
  unfoldable pub new : Evm → BlockExecutionCtx → Executor
  new evm ctx = record {
    ctx = ctx;
    evm = evm;
    system_caller = new_system_caller;
    receipts = [];
    block_gas_used = 0;
  }

  unfoldable pub set_state_hook : Option StateHook → Executor → Executor
  set_state_hook hook x = record x { system_caller = with_state_hook hook x.system_caller }

  -- `apply_pre_execution_changes`
  unfoldable pub apply_pre_execution_changes : Executor → Result Error (Unit {0}) × Executor
  apply_pre_execution_changes x =
      let flag = is_spurious_dragon_active_at_block (block_number x.evm) in
      let evm1 = set_state_clear_flag flag x.evm in
      let (r, caller1, evm2) =
        apply_blockhashes_contract_call x.ctx.parent_hash x.system_caller evm1 in
      elim r [
        | err e ↦ (err e, record x { evm = evm2; system_caller = caller1 })
        | ok _ ↦
            let (r', caller2, evm3) =
              apply_beacon_root_contract_call x.ctx.parent_beacon_block_root caller1 evm2 in
            (r', record x { evm = evm3; system_caller = caller2 })
      ]

  -- `execute_transaction_without_commit`
  unfoldable pub execute_transaction_without_commit :
      Tx → Executor → Result Error (Outcome × Changes) × Executor
  execute_transaction_without_commit tx x =
      let (r, evm') = transact tx x.evm in (r, record x { evm = evm' })

  -- `commit_transaction`
  unfoldable pub commit_transaction : Outcome × Changes → Tx → Executor → ℕ × Executor
  commit_transaction (outcome, changes) tx x =
      let used = gas_used outcome in
      let total = add_u64 x.block_gas_used used in
      (
        used,
        record x {
          system_caller = on_state (length x.receipts) changes x.system_caller;
          block_gas_used = total;
          receipts = x.receipts ++ build_receipt tx x.evm outcome changes total ∷ [];
          evm = commit changes x.evm;
        },
      )

  -- `finish`: the receipts and the gas used; there are no requests and no blob gas
  unfoldable pub finish : Executor → Evm × List Receipt × ℕ
  finish x = (x.evm, x.receipts, x.block_gas_used)

  -- `execute_transaction_without_commit`, then `commit_transaction`, for one transaction after the
  -- other until one fails; the list at the end is the gas that each used.
  unfoldable pub execute_all : List Tx → Executor → Result Error (List ℕ) × Executor
  unfolding execute_transaction_without_commit
  execute_all [] x = (ok [], x)
  execute_all (tx ∷ txs) x =
      let (r, x1) = execute_transaction_without_commit tx x in
      elim r [
        | err e ↦ (err e, x1)
        | ok out ↦
            let (used, x2) = commit_transaction out tx x1 in
            let (rest, x3) = execute_all txs x2 in
            elim rest [ err e ↦ (err e, x3) | ok gas ↦ (ok (used ∷ gas), x3) ]
      ]
