-- ===== src/Block/Executor/Gas.antt =====
-- crates/block/src/executor.rs: the receipts and the gas that a block's transactions add up to.
use mathlib.Core.List.{append-nil, append_assoc, map-append}
use kx_reth.Prelude.{
  ℕ, suc, ◌+◌, ◌<◌, ◌≡◌, refl, ap, ◌∙◌, sym, List, [], ◌∷◌, ◌++◌, map, arith, length, ok, inl, inr,
  Result-cases,
}
use kx_reth.Prelude.Word.{u64_mod, add_u64_exact}
use kx_reth.Block.Executor.{
  Engine, Executor, commit_transaction, execute_transaction_without_commit, execute_all,
}

abbrev pub sum : List ℕ → ℕ
sum [] = 0
sum (g ∷ gs) = g + sum gs

-- The gas used after each transaction, from what was used before the first.
abbrev pub running_totals : ℕ → List ℕ → List ℕ
running_totals before [] = []
running_totals before (g ∷ gs) = (before + g) ∷ running_totals (before + g) gs

module _ (engine : Engine) where
  open engine use {Tx, Error, Receipt, cumulative_gas_used, build_receipt_lem}

  abbrev pub cumulative : Executor engine → List ℕ
  cumulative x = map cumulative_gas_used x.receipts

  -- What a run from `x` to `x'` over `txs` that used `gas` has done.
  pub record Totals (x x' : Executor engine) (txs : List Tx) (gas : List ℕ) : Type 0 where
    pub each_counted : length gas ≡ length txs
    pub gas_added : x'.block_gas_used ≡ x.block_gas_used + sum gas
    pub receipts_added : cumulative x' ≡ cumulative x ++ running_totals x.block_gas_used gas
    pub same_ctx : x'.ctx ≡ x.ctx

  -- Committing one transaction whose gas fits adds its gas and its receipt.
  commit_lem :
      (out : engine.Outcome × engine.Changes) (tx : Tx) (x : Executor engine)
      → x.block_gas_used + engine.gas_used out.0 < u64_mod
      → ((commit_transaction engine out tx x).1.block_gas_used
          ≡ x.block_gas_used + engine.gas_used out.0)
        × (cumulative (commit_transaction engine out tx x).1
            ≡ cumulative x ++ (x.block_gas_used + engine.gas_used out.0) ∷ [])
        × ((commit_transaction engine out tx x).1.ctx ≡ x.ctx)
  unfolding commit_transaction
  commit_lem (outcome, changes) tx x fits = (
    omega arith,
    map-append cumulative_gas_used x.receipts _
        ∙ ap (λ n. cumulative x ++ n ∷ [])
            (build_receipt_lem tx x.evm outcome changes _ ∙ add_u64_exact _ _ fits),
    refl,
  )

  first_succeeds :
      (tx : Tx) (txs : List Tx) (x : Executor engine) (gas : List ℕ)
      → (execute_all engine (tx ∷ txs) x).0 ≡ ok gas
      → let x1 = record x { evm = (engine.transact tx x.evm).1 } in
        (out : engine.Outcome × engine.Changes) × (rest : List ℕ) × ((execute_all engine txs
            (commit_transaction engine out tx x1).1).0
          ≡ ok rest)
        × (gas ≡ engine.gas_used out.0 ∷ rest)
        × ((execute_all engine (tx ∷ txs) x).1
            ≡ (execute_all engine txs (commit_transaction engine out tx x1).1).1)
  unfolding execute_all commit_transaction execute_transaction_without_commit
  first_succeeds tx txs x gas e = elim (Result-cases (engine.transact tx x.evm).0) [
    | inr (f, q) ↦ ground (arith, q)
    | inl (out, q) ↦
        let x1 = record x { evm = (engine.transact tx x.evm).1 } in
        elim (Result-cases (execute_all engine txs (commit_transaction engine out tx x1).1).0) [
          | inr (f, q2) ↦ ground (arith, q, q2)
          | inl (rest, q2) ↦ (out, rest, q2, ground (arith, q, q2), ground (arith, q, q2))
        ]
  ]

  -- A block whose transactions all run, with a total that fits a u64, has one receipt for each of them,
  -- in order, each with the gas used up to and including its transaction, on top of the receipts that
  -- were there; the gas of the block grows by the sum; the context is kept.
  pub execute_all-Totals :
      (txs : List Tx) (x : Executor engine) (gas : List ℕ)
      → (execute_all engine txs x).0 ≡ ok gas
      → x.block_gas_used + sum gas < u64_mod
      → Totals x (execute_all engine txs x).1 txs gas
  unfolding execute_all
  execute_all-Totals [] x gas e fits =
      let none_used : gas ≡ [] = cc in
      rw none_used (record {
        each_counted = refl;
        gas_added = omega arith;
        receipts_added = sym (append-nil (cumulative x));
        same_ctx = refl;
      })
  execute_all-Totals (tx ∷ txs) x gas e fits =
      let step = first_succeeds tx txs x gas e in
      let x1 = record x { evm = (engine.transact tx x.evm).1 } in
      let x2 = (commit_transaction engine step.0 tx x1).1 in
      let all_fit = rw step.3 at fits in
      let first = commit_lem step.0 tx x1 (omega (arith, all_fit)) in
      let rest : Totals x2 (execute_all engine txs x2).1 txs step.1 =
        execute_all-Totals txs x2 step.1 step.2 (omega (arith, first.0, all_fit)) in
      let total = x.block_gas_used + engine.gas_used step.0.0 in
      rw (step.3, step.4)
        (record {
          each_counted = ap suc rest.each_counted;
          gas_added = omega (arith, rest.gas_added, first.0);
          receipts_added =
              rest.receipts_added
              ∙ ap (λ c. c ++ running_totals x2.block_gas_used step.1) first.1
              ∙ ap (λ n. (cumulative x ++ total ∷ []) ++ running_totals n step.1) first.0
              ∙ append_assoc (cumulative x) _ _;
          same_ctx = rest.same_ctx ∙ first.2;
        })
