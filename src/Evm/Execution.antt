-- ===== src/Evm/Execution.antt =====
-- crates/evm/src/{evm,execution,factory,alloy}.rs: the EVM, how it is made, and the order in which a
-- transaction is set, run, finalized and committed. revm's handler loop, journal and database are the
-- parameter `Revm`; the handler's own methods are modelled in Handler.
pub mod Environment
use kx_reth.Prelude.{ℕ, ◌≡◌, Bool, true, false, Result, ok, err}

-- alloy's `EvmEnv`
pub record EvmEnv (Cfg Block : Type 0) : Type 0 where
  pub cfg_env : Cfg
  pub block_env : Block

-- revm's `Context`, as far as this crate reads and writes it
pub record Context (Cfg Block Tx Db Journal : Type 0) : Type 0 where
  pub block : Block
  pub tx : Tx
  pub cfg : Cfg
  pub journal : Journal
  pub database : Db

-- `KasplexEvm`, with the fields of revm's `Evm` that are reached through it
pub record KasplexEvm (Ctx Inspector Precompiles : Type 0) : Type 0 where
  pub ctx : Ctx
  pub inspector : Inspector
  pub precompiles : Precompiles

-- `KasplexEvmWrapper`
pub record KasplexEvmWrapper (Evm : Type 0) : Type 0 where
  pub inner : Evm
  pub inspect : Bool

pub record Revm : Type 1 where
  pub Cfg : Type 0
  pub Block : Type 0
  pub Tx : Type 0
  pub Db : Type 0
  pub Journal : Type 0
  pub Inspector : Type 0
  pub Precompiles : Type 0
  pub Changes : Type 0
  pub ExecutionResult : Type 0
  pub Error : Type 0
  pub chain_id : Cfg → ℕ
  -- what `Context::mainnet()` starts from
  pub no_tx : Tx
  pub empty_journal : Journal
  pub no_op_inspector : Inspector
  -- `PrecompileSpecId::from_spec_id(spec)`
  pub precompiles_for : Cfg → Precompiles
  -- `KasplexEvmHandler::run` and `inspect_run`
  pub run :
      KasplexEvm (Context Cfg Block Tx Db Journal) Inspector Precompiles
      → Result Error ExecutionResult
        × KasplexEvm (Context Cfg Block Tx Db Journal) Inspector Precompiles
  pub inspect_run :
      KasplexEvm (Context Cfg Block Tx Db Journal) Inspector Precompiles
      → Result Error ExecutionResult
        × KasplexEvm (Context Cfg Block Tx Db Journal) Inspector Precompiles
  pub finalize_journal : Journal → Changes × Journal
  pub commit_changes : Changes → Db → Db

module _ (revm : Revm) where
  open revm use {
    Cfg, Block, Tx, Db, Journal, Inspector, Precompiles, Changes, ExecutionResult, Error, no_tx,
    empty_journal, no_op_inspector, precompiles_for, run, inspect_run, finalize_journal,
    commit_changes,
  }

  abbrev pub Ctx : Type 0
  Ctx = Context Cfg Block Tx Db Journal

  abbrev pub Evm : Type 0
  Evm = KasplexEvm Ctx Inspector Precompiles

  abbrev pub Wrapper : Type 0
  Wrapper = KasplexEvmWrapper Evm

  abbrev pub Env : Type 0
  Env = EvmEnv Cfg Block

  -- the EVM that both constructors of the factory build
  abbrev built : Db → Env → Evm
  built db input = record {
    ctx = record {
      block = input.block_env;
      tx = no_tx;
      cfg = input.cfg_env;
      journal = empty_journal;
      database = db;
    };
    inspector = no_op_inspector;
    precompiles = precompiles_for input.cfg_env;
  }

  -- `create_evm`
  unfoldable pub create_evm : Db → Env → Wrapper
  create_evm db input = record { inner = built db input; inspect = false }

  -- `create_evm_with_inspector`
  unfoldable pub create_evm_with_inspector : Db → Env → Inspector → Wrapper
  create_evm_with_inspector db input inspector = record {
    inner = record (built db input) { inspector = inspector };
    inspect = true;
  }

  -- `ExecuteEvm`
  unfoldable pub set_block : Block → Evm → Evm
  set_block block evm = record evm { ctx = record evm.ctx { block = block } }

  unfoldable pub set_tx : Tx → Evm → Evm
  set_tx tx evm = record evm { ctx = record evm.ctx { tx = tx } }

  unfoldable pub transact_one : Tx → Evm → Result Error ExecutionResult × Evm
  transact_one tx evm = run (set_tx tx evm)

  unfoldable pub finalize : Evm → Changes × Evm
  finalize evm =
      let (changes, journal) = finalize_journal evm.ctx.journal in
      (changes, record evm { ctx = record evm.ctx { journal = journal } })

  -- `replay`: the journal is only finalized when the run succeeds
  unfoldable pub replay : Evm → Result Error (ExecutionResult × Changes) × Evm
  unfolding finalize
  replay evm =
      let (result, evm') = run evm in
      elim result [
        | err e ↦ (err e, evm')
        | ok r ↦ let (changes, evm'') = finalize evm' in (ok (r, changes), evm'')
      ]

  -- `ExecuteCommitEvm::commit`
  unfoldable pub commit : Changes → Evm → Evm
  commit changes evm = record evm {
    ctx = record evm.ctx { database = commit_changes changes evm.ctx.database };
  }

  -- `InspectEvm`
  unfoldable pub set_inspector : Inspector → Evm → Evm
  set_inspector inspector evm = record evm { inspector = inspector }

  unfoldable pub inspect_one_tx : Tx → Evm → Result Error ExecutionResult × Evm
  inspect_one_tx tx evm = inspect_run (set_tx tx evm)

  -- the wrapper's accessors
  abbrev pub block : Wrapper → Block
  block w = w.inner.ctx.block

  abbrev pub chain_id : Wrapper → ℕ
  chain_id w = revm.chain_id w.inner.ctx.cfg

  abbrev pub components : Wrapper → Db × Inspector × Precompiles
  components w = (w.inner.ctx.database, w.inner.inspector, w.inner.precompiles)

  unfoldable pub set_inspector_enabled : Bool → Wrapper → Wrapper
  set_inspector_enabled enabled w = record w { inspect = enabled }

  -- `finish`: what is left of the EVM
  unfoldable pub finish : Wrapper → Db × Env
  finish w =
      (w.inner.ctx.database, record { cfg_env = w.inner.ctx.cfg; block_env = w.inner.ctx.block })
