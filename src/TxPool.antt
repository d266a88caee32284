-- ===== src/TxPool.antt =====
-- crates/txpool/src/lib.rs: the clean-up of the transaction pool after a reorg and after a block.
-- The pool itself is reth's: it is the parameter `Pool`, with what the code relies on as its laws.
pub mod Reorg
pub mod Included
pub mod Memory
use kx_reth.Prelude.{
  ℕ, ◌≡◌, Bool, true, false, not, ◌&&◌, ◌||◌, none, some, List, [], ◌∷◌, ◌++◌, ltb, ◌==◌, length,
  contains, unwrap_or, if◌then◌else◌, Option,
}
use kx_reth.Prelude.Word.{add_u64}
use kx_reth.TxMapping
use kx_reth.TxMapping.{TxMapping, unexecuted_tx_retention_blocks}

-- reth's `TransactionPool`: `all_transactions` lists the hashes in the pending and in the queued
-- sub-pool; `remove_transactions` takes the named transactions out and returns those it took.
-- A transaction may move from one sub-pool to the other when another one goes.
pub record Pool : Type 1 where
  pub State : Type 0
  pub pending : State → List ℕ
  pub queued : State → List ℕ
  pub remove_transactions : List ℕ → State → List ℕ × State
  pub remove_lem :
      (hs : List ℕ) (s : State) (h : ℕ)
      → (contains h (pending (remove_transactions hs s).1)
          || contains h (queued (remove_transactions hs s).1))
        ≡ ((contains h (pending s) || contains h (queued s)) && not (contains h hs))

-- The body of both loops of `handle_kasplex_pool_reorg`: is this hash pushed to `txs_to_remove`?
unfoldable pub to_remove : TxMapping → ℕ → ℕ → Bool
to_remove m new_head h =
    let tx_number = unwrap_or (TxMapping.get_submission_block h m) 0 in
    if ltb 0 tx_number
    then if ltb (add_u64 tx_number unexecuted_tx_retention_blocks) new_head
      then true
      else if ltb new_head tx_number
      then true
      else false
    else false

-- `for tx_hash in hashes { … txs_to_remove.push(tx_hash) }`
unfoldable pub collect_expired : TxMapping → ℕ → List ℕ → List ℕ → List ℕ
collect_expired m new_head [] acc = acc
collect_expired m new_head (h ∷ hs) acc =
    collect_expired m new_head hs (if to_remove m new_head h then acc ++ h ∷ [] else acc)

-- `for tx in sub_pool { if block_tx_hashes.contains(&hash) { txs_to_remove.push(hash) } }`
unfoldable pub collect_included : List ℕ → List ℕ → List ℕ → List ℕ
collect_included block_hashes [] acc = acc
collect_included block_hashes (h ∷ hs) acc =
    collect_included block_hashes hs (if contains h block_hashes then acc ++ h ∷ [] else acc)

module _ (p : Pool) where
  open p use {State, pending, queued, remove_transactions}

  -- `if removed_count > 0 { pool.remove_transactions(txs_to_remove) }`
  unfoldable pub remove_collected : List ℕ → State → State
  remove_collected hs s = if ltb 0 (length hs) then (remove_transactions hs s).1 else s

  -- `handle_kasplex_pool_reorg`, with `chain_spec.is_kasplex()` as its first argument. It always
  -- returns `Ok(())`.
  unfoldable pub handle_kasplex_pool_reorg : Bool → ℕ → TxMapping → State → TxMapping × State
  unfolding remove_collected
  handle_kasplex_pool_reorg is_kasplex new_head m s =
      if not is_kasplex
      then (m, s)
      else let m' = TxMapping.mark_start_pool_reorg m in
        let from_pending = collect_expired m' new_head (pending s) [] in
        let txs_to_remove = collect_expired m' new_head (queued s) from_pending in
        let s' = remove_collected txs_to_remove s in (TxMapping.mark_pool_reorged m', s')

  -- `remove_included_transactions`, on the hashes of the block's transactions. The count is that of
  -- the hashes asked to be removed.
  unfoldable pub remove_included_transactions : List ℕ → State → ℕ × State
  unfolding remove_collected
  remove_included_transactions block_hashes s =
      let from_pending = collect_included block_hashes (pending s) [] in
      let txs_to_remove = collect_included block_hashes (queued s) from_pending in
      (length txs_to_remove, remove_collected txs_to_remove s)

  -- Is the transaction in either sub-pool?
  abbrev pub in_pool : ℕ → State → Bool
  in_pool h s = contains h (pending s) || contains h (queued s)

-- `is_transaction_expired_for_pool`
unfoldable pub is_transaction_expired_for_pool : ℕ → TxMapping → ℕ → Bool
is_transaction_expired_for_pool h m current = elim (TxMapping.get_submission_block h m) [
  | none ↦ false
  | some tx_number ↦
      ltb (add_u64 tx_number unexecuted_tx_retention_blocks) current || ltb current tx_number
]
