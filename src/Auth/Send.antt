-- ===== src/Auth/Send.antt =====
-- crates/rpc/src/eth/auth.rs, `send_raw_transaction` and `send_raw_transactions`.
use kx_reth.Prelude.{
  ℕ, ◌+◌, ◌≡◌, ◌≤◌, ◌<◌, refl, ap, some, List, [], ◌∷◌, ◌++◌, arith, ◌==◌, length, err,
  if◌then◌else◌, Option-cases, inl, inr,
}
use kx_reth.Prelude.Word.{u64_mod, add_u64}
use kx_reth.Prelude.HashMap.{get-insert}
use kx_reth.TxMapping
use kx_reth.TxMapping.{TxMapping}
use kx_reth.Auth.{
  SendNode, fee_too_low, min_l2_base_fee, set_transaction_number, submit, send_raw_transaction,
  send_raw_transactions,
}

module _ (node : SendNode) where
  open node use {
    Recovered, State, hash, max_fee_per_gas, recover_raw_transaction, latest_header,
    try_from_consensus, add_transaction,
  }

  pub submit-mapping : (tx : Recovered) (m : TxMapping) (s : State) → (submit node tx m s).1 ≡ m
  unfolding submit
  submit-mapping tx m s = elim (Option-cases (try_from_consensus tx)) [
    | inl q ↦ ground (arith, q)
    | inr (p, q) ↦ elim (Option-cases (add_transaction p s).0) [
      | inl r ↦ ground (arith, q, r)
      | inr (h, r) ↦ ground (arith, q, r)
    ]
  ]

  -- When a text that is not empty decodes to a transaction that pays at least 2000 GWei, and the next
  -- number after the latest block's fits a u64, the mapping ends with that number for its hash and is
  -- otherwise as before, whether or not the pool takes the transaction.
  pub send_raw_transaction_numbers :
      (raw : List ℕ) (tx : Recovered) (number : ℕ) (m : TxMapping) (s : State) (h : ℕ)
      → 0 < length raw
      → recover_raw_transaction raw ≡ some tx
      → min_l2_base_fee ≤ max_fee_per_gas tx
      → latest_header s ≡ some number
      → number + 1 < u64_mod
      → TxMapping.get_submission_block h (send_raw_transaction node raw m s).1
        ≡ (if hash tx == h then some (number + 1) else TxMapping.get_submission_block h m)
  unfolding send_raw_transaction set_transaction_number TxMapping.get_submission_block
      TxMapping.insert
  send_raw_transaction_numbers raw tx number m s h some_bytes decodes pays latest small =
      let m' = TxMapping.insert (hash tx) (add_u64 number 1) m in
      ground (
        arith,
        some_bytes,
        decodes,
        pays,
        latest,
        small,
        submit-mapping tx m' s,
        get-insert (hash tx) h (add_u64 number 1) m.mapping,
        ap (λ x. TxMapping.get_submission_block h x) (submit-mapping tx m' s),
      )

  -- A transaction that cannot pay 2000 GWei is refused with its fee, and nothing changes.
  pub send_raw_transaction_underpriced :
      (raw : List ℕ) (tx : Recovered) (m : TxMapping) (s : State)
      → 0 < length raw
      → recover_raw_transaction raw ≡ some tx
      → max_fee_per_gas tx < min_l2_base_fee
      → send_raw_transaction node raw m s ≡ (err (fee_too_low (max_fee_per_gas tx)), m, s)
  unfolding send_raw_transaction
  send_raw_transaction_underpriced raw tx m s some_bytes decodes poor =
      ground (arith, some_bytes, decodes, poor)

  -- A batch is its first part and then its second, with the state handed on and the hashes joined:
  -- what fails in the first part does not stop the second.
  pub send_raw_transactions-append :
      (xs ys : List (List ℕ)) (hashes : List ℕ) (m : TxMapping) (s : State)
      → let first = send_raw_transactions node xs hashes m s in
        send_raw_transactions node (xs ++ ys) hashes m s
        ≡ send_raw_transactions node ys first.0 first.1 first.2
  unfolding send_raw_transactions
  send_raw_transactions-append [] ys hashes m s = refl
  send_raw_transactions-append (x ∷ xs) ys hashes m s = send_raw_transactions-append xs ys _ _ _
