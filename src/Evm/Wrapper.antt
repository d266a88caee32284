-- ===== src/Evm/Wrapper.antt =====
-- crates/evm/src/{alloy,factory}.rs: the wrapper that reth calls. A run of a transaction on revm is the
-- parameter `machine`; the handler of this crate is modelled in `Handler`.
use kx_reth.Prelude.{
  ℕ, ◌≡◌, refl, Bool, true, Option, none, some, List, [], ◌∷◌, arith, ◌==◌, keep_if, if◌then◌else◌,
  Result, ok, err, All, Bool-cases, inl, inr,
}

-- revm's `TxEnv`
pub record TxEnv : Type 0 where
  pub caller : ℕ
  -- `TxKind::Call`, or `none` for a create
  pub call_target : Option ℕ
  pub nonce : ℕ
  pub gas_limit : ℕ
  pub value : ℕ
  pub input : List ℕ
  pub gas_price : ℕ
  pub chain_id : Option ℕ
  pub gas_priority_fee : Option ℕ
  pub max_fee_per_blob_gas : ℕ
  pub tx_type : ℕ

-- The block gas limit, the base fee and the nonce flag of the context, and the rest of it.
pub record EvmState (Rest : Type 0) : Type 0 where
  pub block_gas_limit : ℕ
  pub basefee : ℕ
  pub disable_nonce_check : Bool
  pub rest : Rest

-- the accounts that an execution changed, by address, beside its result
pub record ResultAndState (R Change : Type 0) : Type 0 where
  pub result : R
  pub state : List (ℕ × Change)

-- `ExecuteEvm::transact` and `InspectEvm::inspect_tx`
pub record Machine : Type 1 where
  pub Rest : Type 0
  pub R : Type 0
  pub Change : Type 0
  pub Error : Type 0
  pub transact : TxEnv → EvmState Rest → Result Error (ResultAndState R Change) × EvmState Rest
  pub inspect_tx : TxEnv → EvmState Rest → Result Error (ResultAndState R Change) × EvmState Rest

-- the transaction of `transact_system_call`
abbrev pub system_tx : ℕ → ℕ → List ℕ → TxEnv
system_tx caller contract input = record {
  caller = caller;
  call_target = some contract;
  nonce = 0;
  gas_limit = 30_000_000;
  value = 0;
  input = input;
  gas_price = 0;
  chain_id = none;
  gas_priority_fee = none;
  max_fee_per_blob_gas = 0;
  tx_type = 0;
}

module _ (m : Machine) where
  open m use {Rest, R, Change, Error, transact, inspect_tx}

  -- `transact_raw`; the flag is set by the constructor and by `set_inspector_enabled`
  unfoldable pub transact_raw :
      Bool → TxEnv → EvmState Rest → Result Error (ResultAndState R Change) × EvmState Rest
  transact_raw inspect tx s = if inspect then inspect_tx tx s else transact tx s

  -- `res.state.retain(|addr, _| *addr == contract)`, on success
  abbrev pub retain :
      ℕ → Result Error (ResultAndState R Change) → Result Error (ResultAndState R Change)
  retain contract (ok r) = ok (record r { state = keep_if (λ e. e.0 == contract) r.state })
  retain contract (err e) = err e

  -- `transact_system_call`: each setting is swapped with a local before the run, and swapped back with it
  -- after the run.
  unfoldable pub transact_system_call :
      Bool → ℕ → ℕ → List ℕ → EvmState Rest → Result Error (ResultAndState R Change) × EvmState Rest
  unfolding transact_raw
  transact_system_call inspect caller contract input s =
      let tx = system_tx caller contract input in
      let swapped = record s {
        block_gas_limit = tx.gas_limit;
        basefee = 0;
        disable_nonce_check = true;
      } in
      let (res, after) = transact_raw inspect tx swapped in
      let old_gas_limit = s.block_gas_limit in
      let old_basefee = s.basefee in
      let old_flag = s.disable_nonce_check in
      (
        retain contract res,
        record after {
          block_gas_limit = old_gas_limit;
          basefee = old_basefee;
          disable_nonce_check = old_flag;
        },
      )

  abbrev pub OnlyContract : ℕ → Result Error (ResultAndState R Change) → Type 0
  OnlyContract contract (ok r) = All (λ e. e.0 ≡ contract) r.state
  OnlyContract contract (err e) = Unit

  keep_if-OnlyContract :
      (contract : ℕ) (es : List (ℕ × Change))
      → All (λ e. e.0 ≡ contract) (keep_if (λ e. e.0 == contract) es)
  keep_if-OnlyContract contract [] = tt
  keep_if-OnlyContract contract (e ∷ es) = elim (Bool-cases (e.0 == contract)) [
    | inl same ↦ rw same (ground arith, keep_if-OnlyContract contract es)
    | inr other ↦ rw other (keep_if-OnlyContract contract es)
  ]

  retain-OnlyContract :
      (contract : ℕ) (res : Result Error (ResultAndState R Change))
      → OnlyContract contract (retain contract res)
  retain-OnlyContract contract (ok r) = keep_if-OnlyContract contract r.state
  retain-OnlyContract contract (err e) = tt

  -- A system call, inspected or not, successful or not, leaves the block gas limit, the base fee and
  -- the nonce flag as they were, and what it returns holds changes of the called contract alone.
  pub system_call_is_contained :
      (inspect : Bool) (caller contract : ℕ) (input : List ℕ) (s : EvmState Rest)
      → ((transact_system_call inspect caller contract input s).1.block_gas_limit
          ≡ s.block_gas_limit)
        × ((transact_system_call inspect caller contract input s).1.basefee ≡ s.basefee)
        × ((transact_system_call inspect caller contract input s).1.disable_nonce_check
            ≡ s.disable_nonce_check)
        × OnlyContract contract (transact_system_call inspect caller contract input s).0
  unfolding transact_system_call
  system_call_is_contained inspect caller contract input s =
      (refl, refl, refl, retain-OnlyContract contract _)
