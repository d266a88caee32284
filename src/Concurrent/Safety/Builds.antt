-- ===== src/Concurrent/Safety/Builds.antt =====
-- crates/payload/src/builder.rs: a build stores only numbers that belong to the transactions of its
-- block, if all replies of the mapping to its loop do.
use mathlib.Core.List.{map-append, append_assoc}
use kx_reth.Prelude.{
  ℕ, suc, ◌≡◌, ◌∙◌, Bool, List, [], ◌∷◌, ◌++◌, map, arith, length, length-append, get_elem?-append,
  drop_last, drop_last-append, unwrap_or, ok, err, Bool-cases, Option-cases, Result-cases, inl, inr,
}
use kx_reth.Prelude.Word.{add_u256, mul_u256, to_u64}
use kx_reth.Block.{SealedHeader}
use kx_reth.Block.Config.{Cells, InnerConfig}
use kx_reth.Attributes.{Codec, BuilderAttributes}
use kx_reth.Payload.{
  Builder, Built, LoopExit, done, cancelled, panicked, fatal, invalid_tx,
  transaction_gas_limit_more_than_available_block_gas, other, Outcome, open_block,
}
use kx_reth.Payload.Opening.{open_block_lem}
use kx_reth.Concurrent.Safety.{Safe, bind-Safe, unwrap_or-Found}
use kx_reth.Concurrent.Builds.{loop_thread, store_each, finish_thread, build_thread}

module _ (Belongs : ℕ → ℕ → Type 0) (zero_belongs : (h : ℕ) → Belongs h 0) (codec : Codec)
    (builder : Builder codec.Recovered) where
  open codec use {Recovered}
  open builder use {
    hash, executed, effective_tip_per_gas, execute_transaction, execute_ok_lem, execute_err_lem,
    finish, finish_lem, transactions, state_by_block_hash, apply_pre_execution_changes, created_lem,
    pre_execution_lem,
  }

  -- as many numbers as transactions, and each belongs to its transaction
  Aligned : List Recovered → List ℕ → Type 0
  Aligned [] [] = Unit
  Aligned [] (n ∷ ns) = ⊥
  Aligned (tx ∷ txs) [] = ⊥
  Aligned (tx ∷ txs) (n ∷ ns) = Belongs (hash tx) n × Aligned txs ns

  append-Aligned :
      (txs : List Recovered) (ns : List ℕ) (tx : Recovered) (n : ℕ)
      → Aligned txs ns
      → Belongs (hash tx) n
      → Aligned (txs ++ tx ∷ []) (ns ++ n ∷ [])
  unfolding Aligned
  append-Aligned [] [] tx n aligned b = (b, tt)
  append-Aligned [] (k ∷ ns) tx n aligned b = absurd aligned
  append-Aligned (t ∷ txs) [] tx n aligned b = absurd aligned
  append-Aligned (t ∷ txs) (k ∷ ns) tx n aligned b =
      (aligned.0, append-Aligned txs ns tx n aligned.1 b)

  abbrev taken_in : builder.State → List Recovered
  taken_in s = map (λ (e : Recovered × ℕ). e.0) (executed s)

  abbrev IsAligned : Built codec builder → Type 0
  IsAligned b = Aligned (taken_in b.state) b.transaction_numbers

  abbrev EndsAligned : LoopExit codec builder → Type 0
  EndsAligned (done b) = IsAligned b
  EndsAligned cancelled = Unit
  EndsAligned panicked = Unit
  EndsAligned (fatal e) = Unit

  -- a transaction that is executed, and one that is refused
  taken_lem :
      (b : Built codec builder) (tx : Recovered) (n gas fees : ℕ)
      → IsAligned b
      → Belongs (hash tx) n
      → (execute_transaction tx b.state).0 ≡ ok gas
      → IsAligned (record {
        state = (execute_transaction tx b.state).1;
        total_fees = fees;
        transaction_numbers = b.transaction_numbers ++ n ∷ [];
      })
  taken_lem b tx n gas fees aligned belongs e =
      rw
        (
          execute_ok_lem tx b.state gas e,
          map-append (λ (e : Recovered × ℕ). e.0) (executed b.state) _,
        )
        (append-Aligned (taken_in b.state) b.transaction_numbers tx n aligned belongs)

  refused_lem :
      (b : Built codec builder) (tx : Recovered) (n : ℕ) (e : _)
      → IsAligned b
      → (execute_transaction tx b.state).0 ≡ err e
      → IsAligned (record {
        state = (execute_transaction tx b.state).1;
        total_fees = b.total_fees;
        transaction_numbers = drop_last (b.transaction_numbers ++ n ∷ []);
      })
  refused_lem b tx n e aligned q =
      rw (execute_err_lem tx b.state e q, drop_last-append b.transaction_numbers n) aligned

  loop_thread-Safe :
      (is_cancelled : ℕ → Bool) (base_fee i : ℕ) (txs : List Recovered) (b : Built codec builder)
      → IsAligned b
      → Safe Belongs zero_belongs EndsAligned
          (loop_thread codec builder is_cancelled base_fee i txs b)
  unfolding loop_thread
  loop_thread-Safe is_cancelled base_fee i [] b aligned = aligned
  loop_thread-Safe is_cancelled base_fee i (tx ∷ txs) b aligned =
      let rec = loop_thread-Safe is_cancelled base_fee (suc i) txs in
      elim (Bool-cases (is_cancelled i)) [
        | inl q ↦ rw (loop_thread, q) tt
        | inr q ↦
            rw (loop_thread, q)
              λ o found.
                let n = unwrap_or o 0 in
                elim (Result-cases (execute_transaction tx b.state).0) [
                  | inr (invalid_tx, r) ↦
                      rw (loop_thread, r) (rec _ (refused_lem b tx n _ aligned r))
                  | inr (transaction_gas_limit_more_than_available_block_gas, r) ↦
                      rw (loop_thread, r) (rec _ (refused_lem b tx n _ aligned r))
                  | inr (other e, r) ↦ rw (loop_thread, r) tt
                  | inl (gas, r) ↦ elim (Option-cases (effective_tip_per_gas tx base_fee)) [
                    | inl t ↦ rw (loop_thread, r, t) tt
                    | inr (tip, t) ↦
                        let belongs = unwrap_or-Found Belongs zero_belongs (hash tx) o found in
                        rw (loop_thread, r, t)
                          (rec _ (
                            taken_lem b tx n gas (add_u256 b.total_fees (mul_u256 tip gas)) aligned
                              belongs r))
                  ]
                ]
      ]

  length-snoc : (xs : List Recovered) (x : Recovered) → length (xs ++ x ∷ []) ≡ suc (length xs)
  length-snoc xs x = omega (arith, length-append xs (x ∷ []))

  store_each-Safe :
      (pre txs : List Recovered) (ns : List ℕ)
      → Aligned txs ns
      → Safe Belongs zero_belongs
          (λ (u : Unit {0}). Unit {0})
          (store_each codec builder (pre ++ txs) (length pre) ns)
  unfolding store_each Aligned
  store_each-Safe pre txs [] aligned = tt
  store_each-Safe pre [] (n ∷ ns) aligned = absurd aligned
  store_each-Safe pre (tx ∷ txs) (n ∷ ns) aligned =
      let rest = store_each-Safe (pre ++ tx ∷ []) txs ns aligned.1 in
      let rest' = rw (append_assoc pre (tx ∷ []) txs, length-snoc pre tx) at rest in
      rw (store_each, get_elem?-append pre tx txs) (aligned.0, rest')

  finish_thread-Safe :
      (attributes : BuilderAttributes codec) (provider : builder.Provider)
      (exit : LoopExit codec builder)
      → EndsAligned exit
      → Safe Belongs zero_belongs
          (λ (o : Outcome codec builder). Unit {0})
          (finish_thread codec builder attributes provider exit)
  unfolding finish_thread
  finish_thread-Safe attributes provider cancelled aligned = tt
  finish_thread-Safe attributes provider panicked aligned = tt
  finish_thread-Safe attributes provider (fatal e) aligned = tt
  finish_thread-Safe attributes provider (done b) aligned =
      elim (Result-cases (finish provider b.state)) [
        | inr (e, q) ↦ rw (finish_thread, q) tt
        | inl (block, q) ↦
            let own : Aligned (transactions block) b.transaction_numbers =
              rw (finish_lem provider b.state block q) aligned in
            rw (finish_thread, q)
              (bind-Safe Belongs zero_belongs _ _
                (store_each codec builder (transactions block) 0 b.transaction_numbers) _
                (store_each-Safe [] (transactions block) b.transaction_numbers own) (λ u v. tt))
      ]

  pub build_thread-Safe :
      (inner : InnerConfig) (parent : SealedHeader) (attributes : BuilderAttributes codec)
      (is_cancelled : ℕ → Bool) (cells : Cells)
      → Safe Belongs zero_belongs
          (λ (o : Outcome codec builder). Unit {0})
          (build_thread codec builder inner parent attributes is_cancelled cells)
  unfolding build_thread Aligned
  build_thread-Safe inner parent attributes is_cancelled cells =
      elim (Result-cases (state_by_block_hash parent.hash)) [
        | inr (e, q) ↦ rw (build_thread, q) tt
        | inl (provider, q) ↦ elim (Option-cases (to_u64 attributes.base_fee_per_gas)) [
          | inl r ↦ rw (build_thread, q, r) tt
          | inr (fee, r) ↦
              let s0 = (open_block codec builder inner parent attributes provider fee cells).0 in
              elim (Result-cases (apply_pre_execution_changes s0).0) [
                | inr (e, w) ↦ rw (build_thread, q, r, w) tt
                | inl (u, w) ↦
                    let start : Built codec builder = record {
                      state = (apply_pre_execution_changes s0).1;
                      total_fees = 0;
                      transaction_numbers = [];
                    } in
                    let nothing : executed start.state ≡ [] =
                      pre_execution_lem s0
                      ∙ (open_block_lem codec builder inner parent attributes provider fee
                          cells).0 in
                    let empty : IsAligned start = rw nothing tt in
                    rw (build_thread, q, r, w)
                      (bind-Safe Belongs zero_belongs EndsAligned _
                        (loop_thread codec builder is_cancelled fee 0 attributes.transactions start)
                        _ (loop_thread-Safe is_cancelled fee 0 attributes.transactions start empty)
                        (λ exit ends. finish_thread-Safe attributes provider exit ends))
              ]
        ]
      ]
