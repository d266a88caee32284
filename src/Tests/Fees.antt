-- ===== src/Tests/Fees.antt =====
-- crates/evm on one transaction: 15 gas at price 3, of which 10 are spent and 1 is refunded.
use kx_reth.Prelude.{
  ℕ, ◌+◌, ◌*◌, ◌%◌, ◌≡◌, ◌<◌, refl, true, false, Option, none, some, List, [], ◌∷◌, arith, ◌==◌,
  if◌then◌else◌, ok, err,
}
use kx_reth.Prelude.Word.{u256_mod}
use kx_reth.Evm.Treasury.{AddressParser, hex_value, address_hex, get_treasury_address}
use kx_reth.Evm.Treasury.Decimal.{decimal, emit}
use kx_reth.Evm.Treasury.Laws.{treasury_address_collides}
use kx_reth.Evm.Journal.{Journal, Context, Gas, Action}
use kx_reth.Evm.Handler.{
  refund_amount, tip_amount, total_base_fee, reimburse_caller, reward_beneficiary,
  validate_against_state_and_deduct_caller,
}
use kx_reth.Evm.Handler.Fees.{
  IsPriced, Admits, treasury, fees_are_conserved, underfunded_caller_mints,
}
use kx_reth.Evm.Handler.Supply.{Paid, supply, base_fees_reach_treasury}
use kx_reth.Evm.Wrapper.{
  EvmState, Machine, OnlyContract, transact_system_call, system_call_is_contained,
}

abbrev pub read_digits : List ℕ → Option ℕ
read_digits (a ∷ b ∷ ds) = some (hex_value 0 ds)
read_digits _ = none

abbrev pub digit_parser : AddressParser
digit_parser = record { from_str = read_digits; from_str_lem = λ ds digits size. refl }

treasury_address_collides_example :
    get_treasury_address digit_parser (16700 * 10) ≡ get_treasury_address digit_parser 16700
treasury_address_collides_example =
    treasury_address_collides digit_parser 16700 (omega arith) (omega arith)

-- the state is the balances; nonces are not kept
abbrev Balances : Type 0
Balances = ℕ → ℕ

abbrev set_at : ℕ → ℕ → Balances → Balances
set_at a x s b = if a == b then x else s b

abbrev credit : ℕ → ℕ → Action Balances (Unit {0})
credit a x s = (ok tt, set_at a ((s a + x) % u256_mod) s)

abbrev do_nothing : ℕ → Action Balances (Unit {0})
do_nothing a s = (ok tt, s)

credit_adds :
    (a x b : ℕ) (s : Balances)
    → (credit a x s).0 ≡ ok tt
    → s a + x < u256_mod
    → (credit a x s).1 b ≡ (if a == b then s b + x else s b)
credit_adds a x b s e fits = ground (arith, fits)

abbrev ledger : Journal
ledger = record {
  State = Balances;
  balance_of = λ s a. s a;
  nonce_of = λ s a. 0;
  load_account = do_nothing;
  load_account_with_code_mut = do_nothing;
  balance_incr = credit;
  bump_nonce = λ a s. s;
  set_balance = set_at;
  load_balance = λ a b s. refl;
  load_code_balance = λ a b s. refl;
  bump_nonce_balance = λ a b s. refl;
  set_balance_lem = λ a x b s. refl;
  balance_incr_lem = credit_adds;
}

-- account 1 calls, account 2 makes the block; the value is 4 and the base fee 2
abbrev one_call : Context Balances
one_call = record {
  beneficiary = 2;
  basefee = 2;
  chain_id = 202555;
  caller = 1;
  value = 4;
  is_call = true;
  effective_gas_price = λ fee. 3;
  effective_balance_spending = λ fee blob. ok 49;
  check = λ s. ok tt;
}

abbrev some_gas : Gas
some_gas = record { spent = 10; remaining = 5; refunded = 1 }

abbrev hundred_each : Balances
hundred_each a = 100

abbrev ten_each : Balances
ten_each a = 10

one_call_priced : IsPriced ledger digit_parser one_call some_gas
one_call_priced = record {
  spending = refl;
  covers_base_fee = omega arith;
  refund_fits = omega arith;
  limit_fits = omega arith;
  fee_fits = omega arith;
}

one_call-Admits : Admits ledger digit_parser one_call some_gas ten_each
one_call-Admits = record {
  loads_beneficiary = refl;
  loads_caller = refl;
  passes = refl;
  loads_code = refl;
}

fees_are_conserved_example :
    ((validate_against_state_and_deduct_caller ledger one_call hundred_each).1 1 + 45 ≡ 100)
    × ((reward_beneficiary ledger digit_parser one_call some_gas
            (reimburse_caller ledger one_call some_gas 0 hundred_each).1).1
          1
        ≡ 100
          + refund_amount ledger one_call some_gas 0
          + 0
          + (if treasury ledger digit_parser one_call some_gas == 1
              then total_base_fee ledger one_call some_gas
              else 0))
    × (refund_amount ledger one_call some_gas 0
          + tip_amount ledger one_call some_gas
          + total_base_fee ledger one_call some_gas
        ≡ 45)
unfolding validate_against_state_and_deduct_caller reimburse_caller reward_beneficiary
fees_are_conserved_example =
    fees_are_conserved ledger digit_parser one_call some_gas hundred_each hundred_each 1
      one_call_priced (omega arith) refl (λ a. omega arith) refl refl

underfunded_caller_mints_example :
    ((validate_against_state_and_deduct_caller ledger one_call ten_each).0 ≡ ok tt)
    × ((validate_against_state_and_deduct_caller ledger one_call ten_each).1 1 ≡ 0)
    × (10
        < refund_amount ledger one_call some_gas 0
          + tip_amount ledger one_call some_gas
          + total_base_fee ledger one_call some_gas)
underfunded_caller_mints_example =
    underfunded_caller_mints ledger digit_parser one_call some_gas ten_each 1 one_call_priced
      one_call-Admits (omega arith)

-- a run changes the account of the caller and that of the contract 6
abbrev two_changes : Machine
two_changes = record {
  Rest = Unit;
  R = Unit;
  Change = ℕ;
  Error = Unit;
  transact = λ tx s. (ok (record { result = tt; state = (tx.caller, 1) ∷ (6, 2) ∷ [] }), s);
  inspect_tx = λ tx s. (err tt, s);
}

abbrev usual_state : EvmState Unit
usual_state = record { block_gas_limit = 15; basefee = 2; disable_nonce_check = false; rest = tt }

system_call_is_contained_example :
    ((transact_system_call two_changes false 5 6 [] usual_state).1.block_gas_limit ≡ 15)
    × ((transact_system_call two_changes false 5 6 [] usual_state).1.basefee ≡ 2)
    × ((transact_system_call two_changes false 5 6 [] usual_state).1.disable_nonce_check ≡ false)
    × OnlyContract two_changes 6 (transact_system_call two_changes false 5 6 [] usual_state).0
system_call_is_contained_example = system_call_is_contained two_changes false 5 6 [] usual_state

abbrev the_treasury : ℕ
the_treasury = get_treasury_address digit_parser 202555

abbrev three_accounts : List ℕ
three_accounts = 1 ∷ 2 ∷ the_treasury ∷ []

-- a transaction whose run changes nothing
abbrev deduct : Balances → Balances
deduct s = (validate_against_state_and_deduct_caller ledger one_call s).1

abbrev settle : Balances → Balances
settle s =
    (reward_beneficiary ledger digit_parser one_call some_gas
      (reimburse_caller ledger one_call some_gas 0 (deduct s)).1).1

settled_once :
    Paid ledger digit_parser three_accounts the_treasury one_call some_gas hundred_each
      (settle hundred_each)
unfolding validate_against_state_and_deduct_caller reimburse_caller reward_beneficiary
    get_treasury_address address_hex decimal emit
settled_once = record {
  after_run = deduct hundred_each;
  priced = one_call_priced;
  funded = omega arith;
  deducted = refl;
  run_moves = refl;
  run_spares = refl;
  room = λ a. ground arith;
  reimbursed = refl;
  rewarded = refl;
  at_end = refl;
  own_treasury = refl;
  caller_listed = refl;
  beneficiary_listed = refl;
  caller_differs = refl;
  beneficiary_differs = refl;
}

base_fees_reach_treasury_example :
    (supply ledger digit_parser three_accounts the_treasury (settle hundred_each)
      ≡ supply ledger digit_parser three_accounts the_treasury hundred_each)
    × (settle hundred_each the_treasury
        ≡ hundred_each the_treasury + (total_base_fee ledger one_call some_gas + 0))
unfolding get_treasury_address address_hex decimal emit
base_fees_reach_treasury_example =
    base_fees_reach_treasury ledger digit_parser three_accounts the_treasury refl refl
      ((one_call, some_gas) ∷ []) hundred_each (settle hundred_each)
      (settle hundred_each, settled_once, refl)
