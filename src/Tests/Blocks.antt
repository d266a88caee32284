-- ===== src/Tests/Blocks.antt =====
-- crates/block on two transactions, each the number that is its gas, and on one assembled block.
use kx_reth.Prelude.{ℕ, ◌+◌, refl, true, none, some, [], ◌∷◌, arith, length, ok}
use kx_reth.Block.{Header, BlockEnv, BlockExecutionCtx}
use kx_reth.Block.Executor.{
  Engine, Executor, execute_all, commit_transaction, execute_transaction_without_commit,
}
use kx_reth.Block.Executor.Gas.{Totals, execute_all-Totals}
use kx_reth.Block.Assembler.{Proofs, assembled_header}
use kx_reth.Consensus.{RethChecks, kasplex_base_fee}

-- the EVM and the system caller count the transactions, and a receipt is the gas used so far
abbrev pub counting_engine : Engine
counting_engine = record {
  Evm = ℕ;
  Tx = ℕ;
  Error = Unit;
  Outcome = ℕ;
  Changes = Unit;
  Receipt = ℕ;
  block_number = λ evm. 0;
  is_spurious_dragon_active_at_block = λ n. true;
  set_state_clear_flag = λ flag evm. evm;
  SystemCaller = ℕ;
  StateHook = Unit;
  new_system_caller = 0;
  with_state_hook = λ hook caller. caller;
  on_state = λ index changes caller. 1 + caller;
  apply_blockhashes_contract_call = λ h caller evm. (ok tt, caller, evm);
  apply_beacon_root_contract_call = λ root caller evm. (ok tt, caller, evm);
  transact = λ tx evm. (ok (tx, tt), evm);
  commit = λ changes evm. 1 + evm;
  gas_used = λ outcome. outcome;
  build_receipt = λ tx evm outcome changes total. total;
  cumulative_gas_used = λ r. r;
  build_receipt_lem = λ tx evm outcome changes total. refl;
}

abbrev pub empty_ctx : BlockExecutionCtx
empty_ctx = record {
  parent_hash = 5;
  parent_beacon_block_root = none;
  ommers = [];
  withdrawals = some [];
  basefee_per_gas = 0;
  extra_data = [];
}

abbrev fresh : Executor counting_engine
fresh = record { ctx = empty_ctx; evm = 0; system_caller = 0; receipts = []; block_gas_used = 0 }

execute_all-Totals_example :
    Totals counting_engine fresh
      (execute_all counting_engine (21000 ∷ 50 ∷ []) fresh).1
      (21000 ∷ 50 ∷ [])
      (21000 ∷ 50 ∷ [])
unfolding execute_all commit_transaction execute_transaction_without_commit
execute_all-Totals_example =
    execute_all-Totals counting_engine (21000 ∷ 50 ∷ []) fresh (21000 ∷ 50 ∷ []) refl (omega arith)

abbrev pub length_proofs : Proofs
length_proofs = record {
  Tx = ℕ;
  Receipt = ℕ;
  calculate_transaction_root = length;
  calculate_receipt_root_no_memo = length;
  logs_bloom = length;
  empty_ommer_root_hash = 9;
  empty_withdrawals = 8;
  beacon_nonce = 0;
  beacon_nonce_lem = refl;
}

abbrev pub pass_all : RethChecks Header
pass_all = record {
  empty_ommer_root_hash = 9;
  validate_header_extra_data = λ h n. ok tt;
  validate_header_gas = λ h. ok tt;
  validate_header_base_fee = λ h. ok tt;
  validate_against_parent_hash_number = λ h p. ok tt;
}

abbrev pub next_env : BlockEnv
next_env = record {
  number = 12;
  beneficiary = 3;
  timestamp = 700;
  gas_limit = 15000000;
  basefee = kasplex_base_fee;
  difficulty = 0;
  prevrandao = some 4;
}

abbrev assembled : Header
assembled = assembled_header length_proofs next_env empty_ctx (1 ∷ []) (2 ∷ []) 21000 6 700 12
