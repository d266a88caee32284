-- ===== src/Payload/Loop.antt =====
-- crates/payload/src/builder.rs: what the loop over the transactions has counted when it is left.
use mathlib.Core.List.{append-nil, append_assoc, map-append}
use kx_reth.Prelude.{
  ℕ, suc, ◌+◌, ◌*◌, ◌%◌, ◌<◌, ◌≡◌, refl, sym, ap, ◌∙◌, Bool, false, some, List, [], ◌∷◌, ◌++◌, map,
  arith, unwrap_or, ◌≢◌, ok, err, Result-cases, inl, inr, Bool-cases, Option-cases, drop_last,
  drop_last-append,
}
use kx_reth.Prelude.Word.{u256_mod, add_u256, mul_u256}
use kx_reth.TxMapping.{TxMapping}
use kx_reth.Attributes.{Codec}
use kx_reth.Payload.{
  Builder, Built, done, ExecutionError, invalid_tx,
  transaction_gas_limit_more_than_available_block_gas, other, execute_all_transactions,
  extract_transaction_number,
}

add_fees : (t x y : ℕ) → ((t + x % u256_mod) % u256_mod + y) % u256_mod ≡ (t + (x + y)) % u256_mod
add_fees t x y = omega arith

module _ (codec : Codec) (builder : Builder codec.Recovered) where
  open codec use {Recovered}
  open builder use {
    effective_tip_per_gas, execute_transaction, executed, execute_ok_lem, execute_err_lem,
  }

  -- The fees of transactions, each with the gas that it used.
  abbrev pub fees : ℕ → List (Recovered × ℕ) → ℕ
  fees base_fee [] = 0
  fees base_fee ((tx, gas) ∷ es) =
      unwrap_or (effective_tip_per_gas tx base_fee) 0 * gas + fees base_fee es

  fees-append :
      (base_fee : ℕ) (es : List (Recovered × ℕ)) (tx : Recovered) (gas : ℕ)
      → fees base_fee (es ++ (tx, gas) ∷ [])
        ≡ fees base_fee es + unwrap_or (effective_tip_per_gas tx base_fee) 0 * gas
  fees-append base_fee [] tx gas = omega arith
  fees-append base_fee ((tx', gas') ∷ es) tx gas = omega (arith, fees-append base_fee es tx gas)

  abbrev pub numbers : TxMapping → List (Recovered × ℕ) → List ℕ
  numbers m es = map (λ (e : Recovered × ℕ). extract_transaction_number codec builder m e.0) es

  -- The local variables agree with the transactions that are in the block.
  pub record Counted (base_fee : ℕ) (m : TxMapping) (b : Built codec builder) : Type 0 where
    pub fees_counted : b.total_fees ≡ fees base_fee (executed b.state) % u256_mod
    pub numbers_counted : b.transaction_numbers ≡ numbers m (executed b.state)

  -- A transaction that is taken in keeps them in step.
  taken_lem :
      (base_fee : ℕ) (m : TxMapping) (tx : Recovered) (b : Built codec builder) (gas tip : ℕ)
      → Counted base_fee m b
      → (execute_transaction tx b.state).0 ≡ ok gas
      → effective_tip_per_gas tx base_fee ≡ some tip
      → Counted base_fee m (record {
        state = (execute_transaction tx b.state).1;
        total_fees = add_u256 b.total_fees (mul_u256 tip gas);
        transaction_numbers =
            b.transaction_numbers ++ extract_transaction_number codec builder m tx ∷ [];
      })
  taken_lem base_fee m tx b gas tip c e t =
      let grown = execute_ok_lem tx b.state gas e in
      let total : fees base_fee (executed (execute_transaction tx b.state).1)
          ≡ fees base_fee (executed b.state) + tip * gas =
        ap (fees base_fee) grown
        ∙ fees-append base_fee (executed b.state) tx gas
        ∙ ap (λ o. fees base_fee (executed b.state) + unwrap_or o 0 * gas) t in
      record {
        fees_counted = omega (arith, total, c.fees_counted);
        numbers_counted =
            ap (λ ns. ns ++ extract_transaction_number codec builder m tx ∷ []) c.numbers_counted
            ∙ sym (ap (numbers m) grown ∙ map-append _ (executed b.state) _);
      }

  -- One that is refused is popped again.
  refused_lem :
      (base_fee : ℕ) (m : TxMapping) (tx : Recovered) (b : Built codec builder) (e : ExecutionError)
      → Counted base_fee m b
      → (execute_transaction tx b.state).0 ≡ err e
      → Counted base_fee m (record {
        state = (execute_transaction tx b.state).1;
        total_fees = b.total_fees;
        transaction_numbers =
            drop_last (b.transaction_numbers ++ extract_transaction_number codec builder m tx ∷ []);
      })
  refused_lem base_fee m tx b e c q =
      let kept = execute_err_lem tx b.state e q in
      record {
        fees_counted = c.fees_counted ∙ sym (ap (λ es. fees base_fee es % u256_mod) kept);
        numbers_counted =
            drop_last-append b.transaction_numbers _
            ∙ c.numbers_counted
            ∙ sym (ap (numbers m) kept);
      }

  -- When the loop is left at its end, the fees are the sum, modulo 2 ^ 256, of effective tip times gas
  -- over the transactions in the block, and the numbers are those of these transactions in the
  -- mapping, in order: refused transactions leave no trace.
  pub execute_all_transactions-Counted :
      (is_cancelled : ℕ → Bool) (base_fee : ℕ) (m : TxMapping) (i : ℕ) (txs : List Recovered)
      (b b' : Built codec builder)
      → Counted base_fee m b
      → execute_all_transactions codec builder is_cancelled base_fee m i txs b ≡ done b'
      → Counted base_fee m b'
  unfolding execute_all_transactions
  execute_all_transactions-Counted is_cancelled base_fee m i [] b b' c h =
      let same : b ≡ b' = cc in rw (← same) c
  execute_all_transactions-Counted is_cancelled base_fee m i (tx ∷ txs) b b' c h =
      let rec = execute_all_transactions-Counted is_cancelled base_fee m (suc i) txs in
      elim (Bool-cases (is_cancelled i)) [
        | inl q ↦ ground (arith, q)
        | inr q ↦ elim (Result-cases (execute_transaction tx b.state).0) [
          | inr (invalid_tx, qe) ↦
              rec _ b' (refused_lem base_fee m tx b _ c qe) (ground (arith, q, qe))
          | inr (transaction_gas_limit_more_than_available_block_gas, qe) ↦
              rec _ b' (refused_lem base_fee m tx b _ c qe) (ground (arith, q, qe))
          | inr (other e, qe) ↦ ground (arith, q, qe)
          | inl (gas, qe) ↦ elim (Option-cases (effective_tip_per_gas tx base_fee)) [
            | inl qt ↦ ground (arith, q, qe, qt)
            | inr (tip, qt) ↦
                rec _ b' (taken_lem base_fee m tx b gas tip c qe qt) (ground (arith, q, qe, qt))
          ]
        ]
      ]

  -- Execution of the transactions one after the other from a state, where none fails fatally and each
  -- that runs has an effective tip.
  pub data Runs (base_fee : ℕ) : List Recovered → builder.State → Type 0 where
    at_end : (s : builder.State) → Runs base_fee [] s
    after_taken :
        (tx : Recovered) (txs : List Recovered) (s : builder.State) (gas tip : ℕ)
        → (execute_transaction tx s).0 ≡ ok gas
        → effective_tip_per_gas tx base_fee ≡ some tip
        → Runs base_fee txs (execute_transaction tx s).1
        → Runs base_fee (tx ∷ txs) s
    after_refused :
        (tx : Recovered) (txs : List Recovered) (s : builder.State) (e : ExecutionError)
        → (execute_transaction tx s).0 ≡ err e
        → ((n : ℕ) → e ≢ other n)
        → Runs base_fee txs (execute_transaction tx s).1
        → Runs base_fee (tx ∷ txs) s

  -- the transactions that ran, each with the gas that it used, and the state in the end
  abbrev pub taken :
      {base_fee : ℕ} {txs : List Recovered} {s : builder.State}
      → Runs base_fee txs s
      → List (Recovered × ℕ)
  taken (at_end s) = []
  taken (after_taken tx txs s gas tip _ _ r) = (tx, gas) ∷ taken r
  taken (after_refused tx txs s e _ _ r) = taken r

  abbrev pub left :
      {base_fee : ℕ} {txs : List Recovered} {s : builder.State}
      → Runs base_fee txs s
      → builder.State
  left (at_end s) = s
  left (after_taken tx txs s gas tip _ _ r) = left r
  left (after_refused tx txs s e _ _ r) = left r

  -- What the loop is left with: the state after all transactions, and the fees and the numbers of those
  -- that ran on top of what was there.
  pub record Left (base_fee : ℕ) (m : TxMapping) (es : List (Recovered × ℕ)) (s : builder.State)
      (b b' : Built codec builder) : Type 0 where
    pub state_left : b'.state ≡ s
    pub fees_added : b'.total_fees ≡ (b.total_fees + fees base_fee es) % u256_mod
    pub numbers_added : b'.transaction_numbers ≡ b.transaction_numbers ++ numbers m es

  -- after a transaction that is refused the loop goes on without it
  refused_goes_on :
      (is_cancelled : ℕ → Bool) (base_fee : ℕ) (m : TxMapping) (i : ℕ) (tx : Recovered)
      (txs : List Recovered) (b : Built codec builder) (e : ExecutionError)
      → is_cancelled i ≡ false
      → (execute_transaction tx b.state).0 ≡ err e
      → ((n : ℕ) → e ≢ other n)
      → execute_all_transactions codec builder is_cancelled base_fee m i (tx ∷ txs) b
        ≡ execute_all_transactions codec builder is_cancelled base_fee m (suc i) txs (record {
          state = (execute_transaction tx b.state).1;
          total_fees = b.total_fees;
          transaction_numbers =
              drop_last
                (b.transaction_numbers ++ extract_transaction_number codec builder m tx ∷ []);
        })
  unfolding execute_all_transactions
  refused_goes_on is_cancelled base_fee m i tx txs b invalid_tx q f nf = ground (arith, q, f)
  refused_goes_on is_cancelled base_fee m i tx txs b
        transaction_gas_limit_more_than_available_block_gas q f nf =
      ground (arith, q, f)
  refused_goes_on is_cancelled base_fee m i tx txs b (other n) q f nf = absurd (nf n refl)

  -- If the job is never cancelled, and the execution of the transactions one after the other from the
  -- state of the builder has no fatal failure and an effective tip for each transaction that runs, the
  -- loop is left at its end: with the state after all transactions; with the sum, modulo 2 ^ 256, of
  -- effective tip times gas over those that ran, on top of the fees that were there; and with their
  -- numbers in the mapping, in order, and no others, behind the numbers that were there.
  pub execute_all_transactions_finishes :
      (is_cancelled : ℕ → Bool) (base_fee : ℕ) (m : TxMapping) (i : ℕ) {txs : List Recovered}
      (b : Built codec builder)
      → ((j : ℕ) → is_cancelled j ≡ false)
      → b.total_fees < u256_mod
      → (r : Runs base_fee txs b.state)
      → (b' : Built codec builder) × (execute_all_transactions codec builder is_cancelled base_fee m
            i txs b
          ≡ done b')
        × Left base_fee m (taken r) (left r) b b'
  unfolding execute_all_transactions
  execute_all_transactions_finishes is_cancelled base_fee m i b go_on small (at_end _) = (
    b,
    refl,
    record {
      state_left = refl;
      fees_added = omega (arith, small);
      numbers_added = sym (append-nil b.transaction_numbers);
    },
  )
  execute_all_transactions_finishes is_cancelled base_fee m i b go_on small
        (after_taken tx txs _ gas tip e t r) =
      let q = go_on i in
      let number = extract_transaction_number codec builder m tx in
      let b1 : Built codec builder = record {
        state = (execute_transaction tx b.state).1;
        total_fees = add_u256 b.total_fees (mul_u256 tip gas);
        transaction_numbers = b.transaction_numbers ++ number ∷ [];
      } in
      let rest =
        execute_all_transactions_finishes is_cancelled base_fee m (suc i) b1 go_on (omega arith)
          r in
      let first : unwrap_or (effective_tip_per_gas tx base_fee) 0 ≡ tip = rw t refl in
      (
        rest.0,
        ground (arith, q, e, t, rest.1),
        record {
          state_left = rest.2.state_left;
          fees_added = rest.2.fees_added ∙ rw first (add_fees b.total_fees (tip * gas) _);
          numbers_added = rest.2.numbers_added ∙ append_assoc b.transaction_numbers (number ∷ []) _;
        },
      )
  execute_all_transactions_finishes is_cancelled base_fee m i b go_on small
        (after_refused tx txs _ e f nf r) =
      let q = go_on i in
      let pushed = b.transaction_numbers ++ extract_transaction_number codec builder m tx ∷ [] in
      let b1 : Built codec builder = record {
        state = (execute_transaction tx b.state).1;
        total_fees = b.total_fees;
        transaction_numbers = drop_last pushed;
      } in
      let rest =
        execute_all_transactions_finishes is_cancelled base_fee m (suc i) b1 go_on small r in
      (
        rest.0,
        refused_goes_on is_cancelled base_fee m i tx txs b e q f nf ∙ rest.1,
        record {
          state_left = rest.2.state_left;
          fees_added = rest.2.fees_added;
          numbers_added =
              rest.2.numbers_added
              ∙ ap (λ ns. ns ++ numbers m (taken r)) (drop_last-append b.transaction_numbers _);
        },
      )
