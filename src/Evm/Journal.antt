-- ===== src/Evm/Journal.antt =====
-- revm's journal and transaction context, as crates/evm/src/handler.rs uses them: parameters, with the
-- documented effect of each call on balances and nonces as laws.
use kx_reth.Prelude.{ℕ, ◌+◌, ◌<◌, ◌≡◌, Bool, if◌then◌else◌, ◌==◌, Result, ok, err}
use kx_reth.Prelude.Word.{u256_mod}

-- a failure of the database, and an invalid transaction
pub data EvmError : Type 0 where
  database invalid_transaction : ℕ → EvmError

-- A call on the journal: what it returns, and the state it leaves, also when it fails.
abbrev pub Action : Type 0 → Type 0 → Type 0
Action S A = S → Result EvmError A × S

infixl 5 ◌>>=◌ ◌>>◌
abbrev pub ◌>>=◌ : {S A B : Type 0} → Action S A → (A → Action S B) → Action S B
◌>>=◌ m f s = let (r, s') = m s in elim r [ ok a ↦ f a s' | err e ↦ (err e, s') ]

abbrev pub ◌>>◌ : {S A B : Type 0} → Action S A → Action S B → Action S B
m >> k = m >>= λ _. k

abbrev pub modify : {S : Type 0} → (S → S) → Action S (Unit {0})
modify f s = (ok tt, f s)

abbrev pub lift : {S A : Type 0} → Result EvmError A → Action S A
lift r s = (r, s)

abbrev pub gets : {S A : Type 0} → (S → A) → Action S A
gets f s = (ok (f s), s)

pub record Journal : Type 1 where
  pub State : Type 0
  pub balance_of : State → ℕ → ℕ
  pub nonce_of : State → ℕ → ℕ
  pub load_account : ℕ → Action State (Unit {0})
  pub load_account_with_code_mut : ℕ → Action State (Unit {0})
  pub balance_incr : ℕ → ℕ → Action State (Unit {0})
  -- on the account that was loaded
  pub bump_nonce : ℕ → State → State
  pub set_balance : ℕ → ℕ → State → State
  pub load_balance : (a b : ℕ) (s : State) → balance_of (load_account a s).1 b ≡ balance_of s b
  pub load_code_balance :
      (a b : ℕ) (s : State) → balance_of (load_account_with_code_mut a s).1 b ≡ balance_of s b
  pub bump_nonce_balance : (a b : ℕ) (s : State) → balance_of (bump_nonce a s) b ≡ balance_of s b
  pub set_balance_lem :
      (a x b : ℕ) (s : State)
      → balance_of (set_balance a x s) b ≡ (if a == b then x else balance_of s b)
  -- a credit that fits a U256 is added
  pub balance_incr_lem :
      (a x b : ℕ) (s : State)
      → (balance_incr a x s).0 ≡ ok tt
      → balance_of s a + x < u256_mod
      → balance_of (balance_incr a x s).1 b
        ≡ (if a == b then balance_of s b + x else balance_of s b)

-- revm's context during one transaction: block, configuration and transaction. The functions of the
-- transaction are revm's `effective_gas_price` and `effective_balance_spending`; `check` is
-- `validate_account_nonce_and_code_with_components`, on the account of the caller.
pub record Context (State : Type 0) : Type 0 where
  pub beneficiary : ℕ
  pub basefee : ℕ
  pub chain_id : ℕ
  pub caller : ℕ
  pub value : ℕ
  pub is_call : Bool
  pub effective_gas_price : ℕ → ℕ
  pub effective_balance_spending : ℕ → ℕ → Result EvmError ℕ
  pub check : State → Result EvmError (Unit {0})

-- revm's `Gas`: u64 counters. `refunded` is an i64, here by its 64 bits, which `as u64` reads.
pub record Gas : Type 0 where
  pub spent : ℕ
  pub remaining : ℕ
  pub refunded : ℕ
