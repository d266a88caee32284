-- ===== src/TxPool/Included.antt =====
-- crates/txpool/src/lib.rs, `remove_included_transactions`: what a block takes out of the pool.
use kx_reth.Prelude.{
  ℕ, ◌+◌, ◌≡◌, not, ◌&&◌, ◌||◌, List, [], ◌∷◌, ◌++◌, arith, length, length-append, contains,
  contains-append, keep_if, Bool-cases, inl, inr,
}
use kx_reth.TxPool.{Pool, collect_included, remove_included_transactions, in_pool}
use kx_reth.TxPool.Reorg.{in_pool-remove_collected}

contains-collect_included :
    (bs : List ℕ) (h : ℕ) (hs acc : List ℕ)
    → contains h (collect_included bs hs acc) ≡ (contains h acc || (contains h hs && contains h bs))
unfolding collect_included
contains-collect_included bs h [] acc = ground arith
contains-collect_included bs h (x ∷ hs) acc = elim (Bool-cases (contains x bs)) [
  | inl out ↦ rw out (
      ground (
        arith,
        contains-collect_included bs h hs (acc ++ x ∷ []),
        contains-append h acc (x ∷ []),
        out,
      ))
  | inr stays ↦ rw stays (ground (arith, contains-collect_included bs h hs acc, stays))
]

length-collect_included :
    (bs hs acc : List ℕ)
    → length (collect_included bs hs acc) ≡ length acc + length (keep_if (λ h. contains h bs) hs)
unfolding collect_included
length-collect_included bs [] acc = omega arith
length-collect_included bs (x ∷ hs) acc = elim (Bool-cases (contains x bs)) [
  | inl out ↦
      rw out
        (omega (arith, length-collect_included bs hs (acc ++ x ∷ []), length-append acc (x ∷ [])))
  | inr stays ↦ rw stays (length-collect_included bs hs acc)
]

module _ (p : Pool) where
  open p use {State, pending, queued}

  -- After a block a transaction is in the pool exactly when it was there and is not in the block, and
  -- the count returned is the number of pending and queued entries whose hash is in the block.
  pub pool_after_block :
      (bs : List ℕ) (s : State) (h : ℕ)
      → (in_pool p h (remove_included_transactions p bs s).1
          ≡ (in_pool p h s && not (contains h bs)))
        × ((remove_included_transactions p bs s).0
            ≡ length (keep_if (λ k. contains k bs) (pending s))
              + length (keep_if (λ k. contains k bs) (queued s)))
  unfolding remove_included_transactions
  pool_after_block bs s h =
      let first = collect_included bs (pending s) [] in
      (
        ground (
          arith,
          in_pool-remove_collected p (collect_included bs (queued s) first) s h,
          contains-collect_included bs h (queued s) first,
          contains-collect_included bs h (pending s) [],
        ),
        omega (
          arith,
          length-collect_included bs (queued s) first,
          length-collect_included bs (pending s) [],
        ),
      )
