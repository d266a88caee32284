-- ===== src/Evm/Handler.antt =====
-- crates/evm/src/handler.rs: what a transaction pays before it runs, and who gets it after.
pub mod Fees
pub mod Supply
use kx_reth.Prelude.{ℕ, Bool, ok, if◌then◌else◌}
use kx_reth.Prelude.Word.{saturating_sub, mul_u128, saturating_mul_u128, add_u64, add_u256}
use kx_reth.Evm.Journal.{Journal, Context, Gas, Action, ◌>>=◌, ◌>>◌, modify, lift, gets}
use kx_reth.Evm.Treasury.{AddressParser, get_treasury_address}

-- the amounts that `reward_beneficiary` computes: the tip and the base fee
unfoldable pub spent_minus_refund : Gas → ℕ
spent_minus_refund gas = saturating_sub gas.spent gas.refunded

module _ (j : Journal) where
  open j use {
    State, balance_of, load_account, load_account_with_code_mut, balance_incr, bump_nonce,
    set_balance,
  }

  unfoldable pub tip_amount : Context State → Gas → ℕ
  unfolding spent_minus_refund
  tip_amount ctx gas =
      let coinbase_gas_price = saturating_sub (ctx.effective_gas_price ctx.basefee) ctx.basefee in
      mul_u128 coinbase_gas_price (spent_minus_refund gas)

  unfoldable pub total_base_fee : Context State → Gas → ℕ
  unfolding spent_minus_refund
  total_base_fee ctx gas = saturating_mul_u128 ctx.basefee (spent_minus_refund gas)

  -- `reward_beneficiary`
  unfoldable pub reward_beneficiary : AddressParser → Context State → Gas → Action State (Unit {0})
  reward_beneficiary parse ctx gas = do
    balance_incr ctx.beneficiary (tip_amount ctx gas)
    balance_incr (get_treasury_address parse ctx.chain_id) (total_base_fee ctx gas)

  -- the amount that `reimburse_caller` computes
  unfoldable pub refund_amount : Context State → Gas → ℕ → ℕ
  refund_amount ctx gas additional_refund =
      let total_to_refund = add_u64 gas.remaining gas.refunded in
      add_u256 (saturating_mul_u128 (ctx.effective_gas_price ctx.basefee) total_to_refund)
        additional_refund

  -- `reimburse_caller`, which the handler calls with no additional refund
  unfoldable pub reimburse_caller : Context State → Gas → ℕ → Action State (Unit {0})
  reimburse_caller ctx gas additional_refund =
      balance_incr ctx.caller (refund_amount ctx gas additional_refund)

  -- `validate_against_state_and_deduct_caller`. The fee that is asked for is the effective spending
  -- without the value; the blob gas price is 0.
  unfoldable pub validate_against_state_and_deduct_caller : Context State → Action State (Unit {0})
  validate_against_state_and_deduct_caller ctx = do
    load_account ctx.beneficiary
    load_account ctx.caller
    caller_checked ← gets ctx.check
    load_account_with_code_mut ctx.caller
    lift caller_checked
    modify (λ s. if ctx.is_call then bump_nonce ctx.caller s else s)
    effective_balance_spending ← lift (ctx.effective_balance_spending ctx.basefee 0)
    let gas_balance_spending = saturating_sub effective_balance_spending ctx.value
    modify (λ s.
        set_balance ctx.caller (saturating_sub (balance_of s ctx.caller) gas_balance_spending) s)
