-- ===== src/Evm/Handler/Supply.antt =====
-- crates/evm/src/handler.rs over a whole block: what its transactions do to the sum of the balances, and
-- to the balance of the treasury.
use kx_reth.Prelude.{
  ℕ, ◌+◌, ◌*◌, ◌≤◌, ◌<◌, ◌≡◌, refl, sym, ap, ◌∙◌, Bool, true, false, not, ◌&&◌, List, [], ◌∷◌,
  arith, contains, ◌==◌, ==_iff, ==_self, if◌then◌else◌, ok, Bool-cases, inl, inr,
}
use kx_reth.Prelude.Word.{u256_mod}
use kx_reth.Evm.Journal.{Journal, Context, Gas}
use kx_reth.Evm.Treasury.{AddressParser}
use kx_reth.Evm.Handler.{
  total_base_fee, reward_beneficiary, reimburse_caller, refund_amount, tip_amount,
  validate_against_state_and_deduct_caller,
}
use kx_reth.Evm.Handler.Fees.{IsPriced, price, gas_limit, treasury, fees_are_conserved}

-- the sum of a function over accounts
abbrev pub sum_over : (ℕ → ℕ) → List ℕ → ℕ
sum_over f [] = 0
sum_over f (a ∷ xs) = f a + sum_over f xs

abbrev pub is_distinct : List ℕ → Bool
is_distinct [] = true
is_distinct (a ∷ xs) = not (contains a xs) && is_distinct xs

-- an amount at one account
abbrev pub at : ℕ → ℕ → ℕ → ℕ
at a x b = if a == b then x else 0

sum_over-add :
    (f g : ℕ → ℕ) (xs : List ℕ) → sum_over (λ a. f a + g a) xs ≡ sum_over f xs + sum_over g xs
sum_over-add f g [] = refl
sum_over-add f g (a ∷ xs) = omega (arith, sum_over-add f g xs)

sum_over-ext : (f g : ℕ → ℕ) (xs : List ℕ) → ((a : ℕ) → f a ≡ g a) → sum_over f xs ≡ sum_over g xs
sum_over-ext f g [] same = refl
sum_over-ext f g (a ∷ xs) same = omega (arith, same a, sum_over-ext f g xs same)

sum_over-at_absent : (a x : ℕ) (xs : List ℕ) → contains a xs ≡ false → sum_over (at a x) xs ≡ 0
sum_over-at_absent a x [] absent = refl
sum_over-at_absent a x (b ∷ xs) absent = ground (arith, absent, sum_over-at_absent a x xs)

sum_over-at :
    (a x : ℕ) (xs : List ℕ)
    → is_distinct xs ≡ true
    → contains a xs ≡ true
    → sum_over (at a x) xs ≡ x
sum_over-at a x [] distinct held = ground (arith, held)
sum_over-at a x (b ∷ xs) distinct held = elim (Bool-cases (a == b)) [
  | inl same ↦
      let equal : a ≡ b = (==_iff a b).0 same in
      let absent : contains b xs ≡ false = ground (arith, distinct) in
      ground (arith, same, equal, sum_over-at_absent b x xs absent)
  | inr other ↦ ground (arith, other, distinct, held, sum_over-at a x xs)
]

module _ (j : Journal) (parse : AddressParser) (accounts : List ℕ) (treasury_account : ℕ) where
  open j use {State, balance_of}

  abbrev pub supply : State → ℕ
  supply s = sum_over (balance_of s) accounts

  -- A transaction of a funded caller that takes the state `s` to `s'`: the deduction, revm's run, the
  -- refund and the rewards, in the order of revm's handler. The run moves balances between the accounts,
  -- and not from or to the treasury; the caller and the beneficiary are not the treasury.
  pub record Paid (ctx : Context State) (gas : Gas) (s s' : State) : Type 0 where
    pub after_run : State
    pub priced : IsPriced j parse ctx gas
    pub funded : gas_limit j parse ctx gas * price j parse ctx gas ≤ balance_of s ctx.caller
    pub deducted : (validate_against_state_and_deduct_caller j ctx s).0 ≡ ok tt
    pub run_moves : supply after_run ≡ supply (validate_against_state_and_deduct_caller j ctx s).1
    pub run_spares :
        balance_of after_run treasury_account
        ≡ balance_of (validate_against_state_and_deduct_caller j ctx s).1 treasury_account
    pub room :
        (a : ℕ)
        → balance_of after_run a + gas_limit j parse ctx gas * price j parse ctx gas < u256_mod
    pub reimbursed : (reimburse_caller j ctx gas 0 after_run).0 ≡ ok tt
    pub rewarded :
        (reward_beneficiary j parse ctx gas (reimburse_caller j ctx gas 0 after_run).1).0 ≡ ok tt
    pub at_end :
        s' ≡ (reward_beneficiary j parse ctx gas (reimburse_caller j ctx gas 0 after_run).1).1
    pub own_treasury : treasury j parse ctx gas ≡ treasury_account
    pub caller_listed : contains ctx.caller accounts ≡ true
    pub beneficiary_listed : contains ctx.beneficiary accounts ≡ true
    pub caller_differs : (ctx.caller == treasury_account) ≡ false
    pub beneficiary_differs : (ctx.beneficiary == treasury_account) ≡ false

  module _ (distinct : is_distinct accounts ≡ true)
      (treasury_listed : contains treasury_account accounts ≡ true) where
    sum_with :
        (f : ℕ → ℕ) (a x : ℕ)
        → contains a accounts ≡ true
        → sum_over (λ b. f b + at a x b) accounts ≡ sum_over f accounts + x
    sum_with f a x held =
        sum_over-add f (at a x) accounts
        ∙ ap (λ n. sum_over f accounts + n) (sum_over-at a x accounts distinct held)

    abbrev credits : (ℕ → ℕ) → Context State → ℕ → ℕ → ℕ → ℕ → ℕ
    credits f ctx refund tip fee b =
        f b + at ctx.caller refund b + at ctx.beneficiary tip b + at treasury_account fee b

    sum_credits :
        (f : ℕ → ℕ) (ctx : Context State) (refund tip fee : ℕ)
        → contains ctx.caller accounts ≡ true
        → contains ctx.beneficiary accounts ≡ true
        → sum_over (credits f ctx refund tip fee) accounts
          ≡ sum_over f accounts + refund + tip + fee
    sum_credits f ctx refund tip fee caller beneficiary =
        sum_with (λ b. f b + at ctx.caller refund b + at ctx.beneficiary tip b) treasury_account fee
          treasury_listed
        ∙ ap (λ n. n + fee)
            (sum_with (λ b. f b + at ctx.caller refund b) ctx.beneficiary tip beneficiary
              ∙ ap (λ n. n + tip) (sum_with f ctx.caller refund caller))

    -- One transaction keeps the sum of the balances, and its base fee goes to the treasury.
    Paid-supply :
        (ctx : Context State) (gas : Gas) (s s' : State)
        → Paid ctx gas s s'
        → (supply s' ≡ supply s)
          × (balance_of s' treasury_account
              ≡ balance_of s treasury_account + total_base_fee j ctx gas)
    Paid-supply ctx gas s s' p =
        let s1 = (validate_against_state_and_deduct_caller j ctx s).1 in
        let limit = gas_limit j parse ctx gas * price j parse ctx gas in
        let refund = refund_amount j ctx gas 0 in
        let tip = tip_amount j ctx gas in
        let fee = total_base_fee j ctx gas in
        let facts = λ (b : ℕ).
          fees_are_conserved j parse ctx gas s p.after_run b p.priced p.funded p.deducted p.room
            p.reimbursed p.rewarded in
        let before : supply s1 + limit ≡ supply s =
          sym (sum_with (balance_of s1) ctx.caller limit p.caller_listed)
          ∙ sum_over-ext _ _ accounts (λ b. (facts b).0) in
        let credited : (b : ℕ)
            → balance_of s' b ≡ credits (balance_of p.after_run) ctx refund tip fee b =
          λ b. ap (λ u. balance_of u b) p.at_end ∙ rw p.own_treasury at (facts b).1 in
        let after : supply s' ≡ supply p.after_run + refund + tip + fee =
          sum_over-ext _ _ accounts credited
          ∙ sum_credits (balance_of p.after_run) ctx refund tip fee p.caller_listed
              p.beneficiary_listed in
        (
          omega (arith, before, after, p.run_moves, (facts 0).2),
          ground (
            arith,
            credited treasury_account,
            p.run_spares,
            (facts treasury_account).0,
            p.caller_differs,
            p.beneficiary_differs,
            ==_self treasury_account,
          ),
        )

    -- The transactions of a block, one after the other.
    abbrev pub PaidAll : List (Context State × Gas) → State → State → Type 0
    PaidAll [] s u = u ≡ s
    PaidAll ((ctx, gas) ∷ txs) s u = (t : State) × Paid ctx gas s t × PaidAll txs t u

    abbrev pub base_fees : List (Context State × Gas) → ℕ
    base_fees [] = 0
    base_fees ((ctx, gas) ∷ txs) = total_base_fee j ctx gas + base_fees txs

    -- Over a list of accounts without repetition that holds the treasury: transactions of funded
    -- callers, run one after the other, whose runs only move balances between these accounts and spare
    -- the treasury, keep the sum of the balances, and the treasury gains the sum of their base fees; the
    -- callers and beneficiaries are in the list and are not the treasury.
    pub base_fees_reach_treasury :
        (txs : List (Context State × Gas)) (s u : State)
        → PaidAll txs s u
        → (supply u ≡ supply s)
          × (balance_of u treasury_account ≡ balance_of s treasury_account + base_fees txs)
    base_fees_reach_treasury [] s u same =
        (ap supply same, omega (arith, ap (λ v. balance_of v treasury_account) same))
    base_fees_reach_treasury ((ctx, gas) ∷ txs) s u (t, paid, later) =
        let (kept, gained) = Paid-supply ctx gas s t paid in
        let (kept_later, gained_later) = base_fees_reach_treasury txs t u later in
        (kept_later ∙ kept, omega (arith, gained, gained_later))
