-- ===== src/Evm/Execution/Environment.antt =====
-- crates/evm/src/{execution,factory,alloy}.rs: what a sequence of calls leaves of the environment that
-- the factory was given, and a run in one call against a run in two.
use kx_reth.Prelude.{
  ◌≡◌, refl, ◌∙◌, Bool, List, [], ◌∷◌, arith, ok, err, Result-cases, inl, inr, ◌⊎◌,
}
use kx_reth.Evm.Execution.{
  Revm, Evm, Env, Wrapper, create_evm, create_evm_with_inspector, set_tx, transact_one, finalize,
  replay, commit, set_inspector, inspect_one_tx, set_inspector_enabled, finish,
}

-- a call on an EVM that reth has been given
pub data Call (revm : Revm) : Type 0 where
  call_transact_one call_inspect_one_tx : revm.Tx → Call revm
  call_finalize call_replay : Call revm
  call_commit : revm.Changes → Call revm
  call_set_inspector : revm.Inspector → Call revm
  call_set_inspector_enabled : Bool → Call revm

module _ (revm : Revm) where
  open revm use {Tx, Db, Inspector, Changes}

  abbrev inside : Wrapper revm → Evm revm → Wrapper revm
  inside w evm = record w { inner = evm }

  -- the state after a call
  unfoldable pub after_call : Call revm → Wrapper revm → Wrapper revm
  after_call (call_transact_one tx) w = inside w (transact_one revm tx w.inner).1
  after_call (call_inspect_one_tx tx) w = inside w (inspect_one_tx revm tx w.inner).1
  after_call call_finalize w = inside w (finalize revm w.inner).1
  after_call call_replay w = inside w (replay revm w.inner).1
  after_call (call_commit changes) w = inside w (commit revm changes w.inner)
  after_call (call_set_inspector inspector) w = inside w (set_inspector revm inspector w.inner)
  after_call (call_set_inspector_enabled enabled) w = set_inspector_enabled revm enabled w

  unfoldable pub after_calls : List (Call revm) → Wrapper revm → Wrapper revm
  after_calls [] w = w
  after_calls (c ∷ cs) w = after_calls cs (after_call c w)

  -- A run of revm reads the environment and does not write it.
  pub record KeepsEnvironment : Type 0 where
    pub run_cfg_lem : (evm : Evm revm) → (revm.run evm).1.ctx.cfg ≡ evm.ctx.cfg
    pub run_block_lem : (evm : Evm revm) → (revm.run evm).1.ctx.block ≡ evm.ctx.block
    pub inspect_cfg_lem : (evm : Evm revm) → (revm.inspect_run evm).1.ctx.cfg ≡ evm.ctx.cfg
    pub inspect_block_lem : (evm : Evm revm) → (revm.inspect_run evm).1.ctx.block ≡ evm.ctx.block

  abbrev env_of : Wrapper revm → Env revm
  env_of w = (finish revm w).1

  call_lem :
      (keeps : KeepsEnvironment) (c : Call revm) (w : Wrapper revm)
      → env_of (after_call c w) ≡ env_of w
  unfolding after_call finish transact_one inspect_one_tx finalize replay commit set_inspector
      set_inspector_enabled set_tx
  call_lem keeps (call_transact_one tx) w = ground (
    arith,
    keeps.run_cfg_lem (set_tx revm tx w.inner),
    keeps.run_block_lem (set_tx revm tx w.inner),
  )
  call_lem keeps (call_inspect_one_tx tx) w = ground (
    arith,
    keeps.inspect_cfg_lem (set_tx revm tx w.inner),
    keeps.inspect_block_lem (set_tx revm tx w.inner),
  )
  call_lem keeps call_finalize w = refl
  call_lem keeps call_replay w = elim (Result-cases (revm.run w.inner).0) [
    | inl (r, q) ↦ ground (arith, q, keeps.run_cfg_lem w.inner, keeps.run_block_lem w.inner)
    | inr (e, q) ↦ ground (arith, q, keeps.run_cfg_lem w.inner, keeps.run_block_lem w.inner)
  ]
  call_lem keeps (call_commit changes) w = refl
  call_lem keeps (call_set_inspector inspector) w = refl
  call_lem keeps (call_set_inspector_enabled enabled) w = refl

  calls_lem :
      (keeps : KeepsEnvironment) (cs : List (Call revm)) (w : Wrapper revm)
      → env_of (after_calls cs w) ≡ env_of w
  unfolding after_calls
  calls_lem keeps [] w = refl
  calls_lem keeps (c ∷ cs) w = calls_lem keeps cs (after_call c w) ∙ call_lem keeps c w

  -- Whatever transactions are run, inspected, replayed, finalized or committed on an EVM of the factory,
  -- with an inspector or without one, at the end it gives the environment back that it was made with,
  -- if a run of revm does not write it.
  pub environment_comes_back :
      (db : Db) (input : Env revm) (inspector : Inspector) (calls : List (Call revm))
      → KeepsEnvironment
      → ((finish revm (after_calls calls (create_evm revm db input))).1 ≡ input)
        × ((finish revm (after_calls calls (create_evm_with_inspector revm db input inspector))).1
            ≡ input)
  unfolding finish create_evm create_evm_with_inspector
  environment_comes_back db input inspector calls keeps = (
    calls_lem keeps calls (create_evm revm db input),
    calls_lem keeps calls (create_evm_with_inspector revm db input inspector),
  )

  -- To set a transaction and replay it is to transact it and, if that succeeds, to finalize: with one
  -- result and one state, on success and on an error.
  pub replay_is_transact_and_finalize :
      (tx : Tx) (evm : Evm revm)
      → let ran = transact_one revm tx evm in
        let replayed = replay revm (set_tx revm tx evm) in
        ((r : revm.ExecutionResult) × (ran.0 ≡ ok r)
          × (replayed ≡ (ok (r, (finalize revm ran.1).0), (finalize revm ran.1).1)))
        ⊎ ((e : revm.Error) × (ran.0 ≡ err e) × (replayed ≡ (err e, ran.1)))
  unfolding transact_one replay
  replay_is_transact_and_finalize tx evm = elim (Result-cases (revm.run (set_tx revm tx evm)).0) [
    | inl (r, q) ↦ inl (r, q, ground (arith, q))
    | inr (e, q) ↦ inr (e, q, ground (arith, q))
  ]
