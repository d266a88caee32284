-- ===== src/Evm/Handler/Fees.antt =====
-- crates/evm/src/handler.rs: where the gas fee of a transaction goes.
use kx_reth.Prelude.{ℕ, min, ◌+◌, ◌-◌, ◌*◌, ◌%◌, ◌≤◌, ◌<◌, ◌≡◌, arith, ◌==◌, if◌then◌else◌, ok}
use kx_reth.Prelude.Word.{
  u64_mod, u128_mod, u256_mod, mul_u128, saturating_mul_u128, add_u64, add_u256,
}
use kx_reth.Evm.Journal.{Journal, Context, Gas}
use kx_reth.Evm.Treasury.{AddressParser, get_treasury_address}
use kx_reth.Evm.Handler.{
  spent_minus_refund, tip_amount, total_base_fee, reward_beneficiary, refund_amount,
  reimburse_caller, validate_against_state_and_deduct_caller,
}

split_fee : (b t u r m : ℕ) → (b + t) * (m + r) + t * u + b * u ≡ (u + r + m) * (b + t)
split_fee b t u r m = omega arith

exact_fees :
    (p b s r m : ℕ) → b ≤ p → r ≤ s → p * (m + r) + (p - b) * (s - r) + b * (s - r) ≡ (s + m) * p
exact_fees p b s r m hb hr =
    let price : b + (p - b) ≡ p = omega arith in
    let used : s - r + r ≡ s = omega arith in rw (price, used) at (split_fee b (p - b) (s - r) r m)

fit_words :
    (x y z t : ℕ)
    → x + y + z ≡ t
    → t < u128_mod
    → (min x (u128_mod - 1) + 0) % u256_mod + y % u128_mod + min z (u128_mod - 1) ≡ t
fit_words x y z t e h = omega arith

-- The amounts of the code, in machine words.
word_fees :
    (p b s r m : ℕ)
    → b ≤ p
    → r ≤ s
    → s + m < u64_mod
    → (s + m) * p < u128_mod
    → add_u256 (saturating_mul_u128 p (add_u64 m r)) 0
        + mul_u128 (p - b) (s - r)
        + saturating_mul_u128 b (s - r)
      ≡ (s + m) * p
word_fees p b s r m hb hr hm hp =
    let total : p * (m + r) + (p - b) * (s - r) + b * (s - r) ≡ (s + m) * p =
      exact_fees p b s r m hb hr in
    let no_wrap : (m + r) % u64_mod ≡ m + r = omega arith in
    rw no_wrap (fit_words (p * (m + r)) ((p - b) * (s - r)) (b * (s - r)) ((s + m) * p) total hp)

module _ (j : Journal) (parse : AddressParser) (ctx : Context j.State) (gas : Gas) where
  open j use {
    State, balance_of, load_balance, load_code_balance, bump_nonce_balance, set_balance_lem,
    balance_incr_lem, balance_incr,
  }

  abbrev pub price : ℕ
  price = ctx.effective_gas_price ctx.basefee

  abbrev pub gas_limit : ℕ
  gas_limit = gas.spent + gas.remaining

  -- What a valid transaction's numbers satisfy: the fee is the gas limit at the effective price, on
  -- top of the value; the price covers the base fee; no more gas is refunded than was spent; and the
  -- numbers fit their words.
  pub record IsPriced : Type 0 where
    pub spending : ctx.effective_balance_spending ctx.basefee 0 ≡ ok (gas_limit * price + ctx.value)
    pub covers_base_fee : ctx.basefee ≤ price
    pub refund_fits : gas.refunded ≤ gas.spent
    pub limit_fits : gas_limit < u64_mod
    pub fee_fits : gas_limit * price < u128_mod

  -- The refund, the tip and the base fee add up to the gas limit at the effective price: nothing is
  -- lost and nothing is made.
  amounts_add_up :
      IsPriced
      → refund_amount j ctx gas 0 + tip_amount j ctx gas + total_base_fee j ctx gas
        ≡ gas_limit * price
  unfolding refund_amount tip_amount total_base_fee spent_minus_refund
  amounts_add_up h =
      word_fees price ctx.basefee gas.spent gas.refunded gas.remaining h.covers_base_fee
        h.refund_fits h.limit_fits h.fee_fits

  -- A deduction that succeeds takes the fee from the caller, or all that the caller has.
  deduct_lem :
      (s : State) (b : ℕ)
      → IsPriced
      → (validate_against_state_and_deduct_caller j ctx s).0 ≡ ok tt
      → balance_of (validate_against_state_and_deduct_caller j ctx s).1 b
        ≡ (if ctx.caller == b then balance_of s b - gas_limit * price else balance_of s b)
  unfolding validate_against_state_and_deduct_caller
  deduct_lem s b h e =
      let s1 = (j.load_account ctx.beneficiary s).1 in
      let s2 = (j.load_account ctx.caller s1).1 in
      let s3 = (j.load_account_with_code_mut ctx.caller s2).1 in
      let s4 = if ctx.is_call then j.bump_nonce ctx.caller s3 else s3 in
      ground (
        arith,
        h.spending,
        load_balance ctx.beneficiary b s,
        load_balance ctx.caller b s1,
        load_code_balance ctx.caller b s2,
        bump_nonce_balance ctx.caller b s3,
        set_balance_lem ctx.caller
            (balance_of s4 ctx.caller - (gas_limit * price + ctx.value - ctx.value)) b s4,
      )

  abbrev pub treasury : ℕ
  treasury = get_treasury_address parse ctx.chain_id

  -- One credit of an amount that fits, seen as a sum.
  credit_lem :
      (a x b : ℕ) (s : State)
      → (balance_incr a x s).0 ≡ ok tt
      → balance_of s a + x < u256_mod
      → balance_of (balance_incr a x s).1 b ≡ balance_of s b + (if a == b then x else 0)
  credit_lem a x b s e h = ground (arith, balance_incr_lem a x b s e h)

  reward_split :
      (s : State)
      → (reward_beneficiary j parse ctx gas s).0 ≡ ok tt
      → let s' = (balance_incr ctx.beneficiary (tip_amount j ctx gas) s).1 in
        ((balance_incr ctx.beneficiary (tip_amount j ctx gas) s).0 ≡ ok tt)
        × ((balance_incr treasury (total_base_fee j ctx gas) s').0 ≡ ok tt)
        × ((reward_beneficiary j parse ctx gas s).1
            ≡ (balance_incr treasury (total_base_fee j ctx gas) s').1)
  unfolding reward_beneficiary
  reward_split s e = ground arith

  -- The calls that follow the run of a transaction: the refund, then the tip and the base fee.
  reward_lem :
      (s2 : State) (b : ℕ)
      → IsPriced
      → ((a : ℕ) → balance_of s2 a + gas_limit * price < u256_mod)
      → (reimburse_caller j ctx gas 0 s2).0 ≡ ok tt
      → (reward_beneficiary j parse ctx gas (reimburse_caller j ctx gas 0 s2).1).0 ≡ ok tt
      → balance_of (reward_beneficiary j parse ctx gas (reimburse_caller j ctx gas 0 s2).1).1 b
        ≡ balance_of s2 b
          + (if ctx.caller == b then refund_amount j ctx gas 0 else 0)
          + (if ctx.beneficiary == b then tip_amount j ctx gas else 0)
          + (if treasury == b then total_base_fee j ctx gas else 0)
  unfolding reimburse_caller
  reward_lem s2 b h room paid rewarded =
      let refund = refund_amount j ctx gas 0 in
      let tip = tip_amount j ctx gas in
      let fee = total_base_fee j ctx gas in
      let s3 = (balance_incr ctx.caller refund s2).1 in
      let s4 = (balance_incr ctx.beneficiary tip s3).1 in
      let sum = amounts_add_up h in
      let split = reward_split s3 rewarded in
      let at3 =
        λ (a : ℕ). credit_lem ctx.caller refund a s2 paid (omega (arith, room ctx.caller)) in
      let room3 = λ (a : ℕ).
        let r : balance_of s3 a + tip + fee < u256_mod = ground (arith, at3 a, room a, sum) in r in
      let at4 = λ (a : ℕ).
        credit_lem ctx.beneficiary tip a s3 split.0 (omega (arith, room3 ctx.beneficiary)) in
      let room4 : balance_of s4 treasury + fee < u256_mod =
        ground (arith, at4 treasury, room3 treasury) in
      rw split.2 (ground (arith, credit_lem treasury fee b s4 split.1 room4, at4 b, at3 b))

  -- The whole path of the fee. A transaction whose deduction succeeds, at a caller who has the gas
  -- limit at the effective price, loses exactly that; whatever the run makes of the state, the two
  -- calls after it, if they succeed where no credit overflows, give the caller the refund, the
  -- beneficiary the tip and the treasury the base fee, also where these accounts coincide, change no
  -- other balance, and the three amounts add up to what the caller lost.
  pub fees_are_conserved :
      (s0 s2 : State) (b : ℕ)
      → IsPriced
      → gas_limit * price ≤ balance_of s0 ctx.caller
      → (validate_against_state_and_deduct_caller j ctx s0).0 ≡ ok tt
      → ((a : ℕ) → balance_of s2 a + gas_limit * price < u256_mod)
      → (reimburse_caller j ctx gas 0 s2).0 ≡ ok tt
      → (reward_beneficiary j parse ctx gas (reimburse_caller j ctx gas 0 s2).1).0 ≡ ok tt
      → (balance_of (validate_against_state_and_deduct_caller j ctx s0).1 b
            + (if ctx.caller == b then gas_limit * price else 0)
          ≡ balance_of s0 b)
        × (balance_of (reward_beneficiary j parse ctx gas (reimburse_caller j ctx gas 0 s2).1).1 b
            ≡ balance_of s2 b
              + (if ctx.caller == b then refund_amount j ctx gas 0 else 0)
              + (if ctx.beneficiary == b then tip_amount j ctx gas else 0)
              + (if treasury == b then total_base_fee j ctx gas else 0))
        × (refund_amount j ctx gas 0 + tip_amount j ctx gas + total_base_fee j ctx gas
            ≡ gas_limit * price)
  fees_are_conserved s0 s2 b h funded deducted room paid rewarded = (
    ground (arith, deduct_lem s0 b h deducted),
    reward_lem s2 b h room paid rewarded,
    amounts_add_up h,
  )

  -- From the state `s` the database answers for the beneficiary and the caller, and the nonce and the code
  -- of the caller pass in the state that is checked.
  pub record Admits (s : State) : Type 0 where
    pub loads_beneficiary : (j.load_account ctx.beneficiary s).0 ≡ ok tt
    pub loads_caller : (j.load_account ctx.caller (j.load_account ctx.beneficiary s).1).0 ≡ ok tt
    pub passes :
        ctx.check (j.load_account ctx.caller (j.load_account ctx.beneficiary s).1).1 ≡ ok tt
    pub loads_code :
        (j.load_account_with_code_mut ctx.caller
          (j.load_account ctx.caller (j.load_account ctx.beneficiary s).1).1).0
        ≡ ok tt

  deduct_succeeds :
      (s : State)
      → IsPriced
      → Admits s
      → (validate_against_state_and_deduct_caller j ctx s).0 ≡ ok tt
  unfolding validate_against_state_and_deduct_caller
  deduct_succeeds s h sound = ground (
    arith, h.spending, sound.loads_beneficiary, sound.loads_caller, sound.loads_code, sound.passes,
  )

  -- Where, from the state of the call, the database answers for the beneficiary and the caller, and the
  -- caller's nonce and code pass in the state that is checked, a caller who has less than the fee is not
  -- refused: the deduction succeeds, and leaves that caller with nothing and every other
  -- account as it was. So less than the fee is taken, while the refund, the tip and the base fee add up
  -- to all of it.
  pub underfunded_caller_mints :
      (s0 : State) (b : ℕ)
      → IsPriced
      → Admits s0
      → balance_of s0 ctx.caller < gas_limit * price
      → ((validate_against_state_and_deduct_caller j ctx s0).0 ≡ ok tt)
        × (balance_of (validate_against_state_and_deduct_caller j ctx s0).1 b
            ≡ (if ctx.caller == b then 0 else balance_of s0 b))
        × (balance_of s0 ctx.caller
            < refund_amount j ctx gas 0 + tip_amount j ctx gas + total_base_fee j ctx gas)
  underfunded_caller_mints s0 b h sound short =
      let deducted = deduct_succeeds s0 h sound in
      (deducted, ground (arith, deduct_lem s0 b h deducted), omega (arith, amounts_add_up h))
