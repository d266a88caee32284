-- ===== src/TxPool/Reorg.antt =====
-- crates/txpool/src/lib.rs, `handle_kasplex_pool_reorg`: which transactions stay in the pool.
use kx_reth.Prelude.{
  ℕ, ◌≡◌, refl, Bool, true, false, not, ◌&&◌, ◌||◌, List, [], ◌∷◌, ◌++◌, arith, ltb, contains,
  contains-append, unwrap_or, Bool-cases, inl, inr,
}
use kx_reth.TxMapping
use kx_reth.TxMapping.{TxMapping}
use kx_reth.TxPool.{
  Pool, to_remove, collect_expired, remove_collected, handle_kasplex_pool_reorg,
  is_transaction_expired_for_pool, in_pool,
}

abbrev pub numbered : ℕ → TxMapping → Bool
numbered h m = ltb 0 (unwrap_or (TxMapping.get_submission_block h m) 0)

-- For every transaction the two tests of expiry in the crate, on the shared table and on the pool,
-- agree.
pub expiry_tests_agree :
    (h current : ℕ) (m : TxMapping)
    → is_transaction_expired_for_pool h m current ≡ TxMapping.is_transaction_expired h current m
unfolding is_transaction_expired_for_pool TxMapping.is_transaction_expired
    TxMapping.get_submission_block
expiry_tests_agree h current m = ground arith

-- The loops' test is the test of expiry, but for the number 0, which they take for no number.
pub to_remove-eq :
    (m : TxMapping) (n h : ℕ)
    → to_remove m n h ≡ (is_transaction_expired_for_pool h m n && numbered h m)
unfolding to_remove is_transaction_expired_for_pool
to_remove-eq m n h = ground arith

-- The loop collects exactly the hashes that its test selects.
contains-collect_expired :
    (m : TxMapping) (n h : ℕ) (hs acc : List ℕ)
    → contains h (collect_expired m n hs acc)
      ≡ (contains h acc || (contains h hs && to_remove m n h))
unfolding collect_expired
contains-collect_expired m n h [] acc = ground arith
contains-collect_expired m n h (x ∷ hs) acc = elim (Bool-cases (to_remove m n x)) [
  | inl out ↦ rw out (
      ground (
        arith,
        contains-collect_expired m n h hs (acc ++ x ∷ []),
        contains-append h acc (x ∷ []),
        out,
      ))
  | inr stays ↦ rw stays (ground (arith, contains-collect_expired m n h hs acc, stays))
]

to_remove-mark :
    (m : TxMapping) (n h : ℕ) → to_remove (TxMapping.mark_start_pool_reorg m) n h ≡ to_remove m n h
unfolding to_remove TxMapping.get_submission_block TxMapping.mark_start_pool_reorg
to_remove-mark m n h = refl

module _ (p : Pool) where
  open p use {State, pending, queued, remove_transactions, remove_lem}

  -- With no hash collected nothing is asked of the pool, which is what removing none would do.
  pub in_pool-remove_collected :
      (hs : List ℕ) (s : State) (h : ℕ)
      → in_pool p h (remove_collected p hs s) ≡ (in_pool p h s && not (contains h hs))
  unfolding remove_collected
  in_pool-remove_collected [] s h = ground arith
  in_pool-remove_collected (x ∷ hs) s h = ground (arith, remove_lem (x ∷ hs) s h)

  reorg_view :
      (n : ℕ) (m : TxMapping) (s : State) (h : ℕ)
      → in_pool p h (handle_kasplex_pool_reorg p true n m s).1
        ≡ (in_pool p h s && not (to_remove m n h))
  unfolding handle_kasplex_pool_reorg TxMapping.mark_start_pool_reorg
  reorg_view n m s h =
      let m' = TxMapping.mark_start_pool_reorg m in
      let first = collect_expired m' n (pending s) [] in
      ground (
        arith,
        in_pool-remove_collected (collect_expired m' n (queued s) first) s h,
        contains-collect_expired m' n h (queued s) first,
        contains-collect_expired m' n h (pending s) [],
        to_remove-mark m n h,
      )

  -- On a Kasplex chain a reorg to head `n` keeps a transaction in the pool exactly when it was there
  -- and is not expired at `n`, or has no number or the number 0. The table keeps its numbers and its
  -- deleted set, and ends with no reorg in progress.
  pub pool_after_reorg :
      (n : ℕ) (m : TxMapping) (s : State) (h : ℕ)
      → (in_pool p h (handle_kasplex_pool_reorg p true n m s).1
          ≡ (in_pool p h s && not (is_transaction_expired_for_pool h m n && numbered h m)))
        × ((handle_kasplex_pool_reorg p true n m s).0 ≡ record m { reorg_in_progress = false })
  unfolding handle_kasplex_pool_reorg TxMapping.mark_start_pool_reorg TxMapping.mark_pool_reorged
  pool_after_reorg n m s h = (rw (← to_remove-eq) (reorg_view n m s h), refl)

  -- On any other chain nothing changes, neither the table nor the pool.
  pub other_chain_untouched :
      (n : ℕ) (m : TxMapping) (s : State) → handle_kasplex_pool_reorg p false n m s ≡ (m, s)
  unfolding handle_kasplex_pool_reorg
  other_chain_untouched n m s = refl
