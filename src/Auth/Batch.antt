-- ===== src/Auth/Batch.antt =====
-- crates/rpc/src/eth/auth.rs: what one node hands out with `tx_pool_content`, another one takes with
-- `send_raw_transactions`.
use kx_reth.Prelude.{
  ℕ, ◌+◌, ◌≡◌, ◌≤◌, ◌<◌, refl, sym, ◌∙◌, some, List, [], ◌∷◌, ◌++◌, map, arith, length, ok,
  if◌then◌else◌, contains, keep_if, All, Bool-cases, inl, inr,
}
use mathlib.Core.List.{append-nil, append_assoc}
use kx_reth.Prelude.Word.{u64_mod}
use kx_reth.TxMapping
use kx_reth.TxMapping.{TxMapping}
use kx_reth.Auth.{
  PoolTx, Selected, SendNode, min_l2_base_fee, tx_pool_content, submit, send_raw_transaction,
  send_raw_transactions,
}
use kx_reth.Auth.Content.{affordable, Fits, tx_pool_content_is_a_prefix}
use kx_reth.Auth.Send.{send_raw_transaction_numbers}

All-append_left {ℓ κ} : {A : Type ℓ} (P : A → Type κ) (xs ys : List A) → All P (xs ++ ys) → All P xs
All-append_left P [] ys h = tt
All-append_left P (x ∷ xs) ys h = (h.0, All-append_left P xs ys h.1)

pays_lem :
    (base_fee : ℕ) (txs : List PoolTx)
    → min_l2_base_fee ≤ base_fee
    → All
        (λ (tx : PoolTx). min_l2_base_fee ≤ tx.max_fee_per_gas)
        (keep_if (affordable base_fee) txs)
pays_lem base_fee [] high = tt
pays_lem base_fee (tx ∷ txs) high = elim (Bool-cases (affordable base_fee tx)) [
  | inl q ↦ rw q (ground (arith, q, high), pays_lem base_fee txs high)
  | inr q ↦ rw q (pays_lem base_fee txs high)
]

module _ (node : SendNode) where
  open node use {
    Recovered, Pooled, State, hash, max_fee_per_gas, recover_raw_transaction, latest_header,
    try_from_consensus, add_transaction,
  }

  -- The node takes the bytes in a state: they decode to a transaction with the hash and the fee cap, and
  -- the pool takes it in this state and leaves the latest block as it is.
  pub record Takes (number : ℕ) (raw : List ℕ) (h fee_cap : ℕ) (s : State) : Type 0 where
    pub tx : Recovered
    pub pooled : Pooled
    pub some_bytes : 0 < length raw
    pub decodes : recover_raw_transaction raw ≡ some tx
    pub same_hash : hash tx ≡ h
    pub same_fee_cap : max_fee_per_gas tx ≡ fee_cap
    pub converts : try_from_consensus tx ≡ some pooled
    pub taken : (add_transaction pooled s).0 ≡ some h
    pub stays : latest_header (add_transaction pooled s).1 ≡ some number

  taken_lem :
      (number : ℕ) (raw : List ℕ) (h fee_cap : ℕ) (m : TxMapping) (s : State)
      (t : Takes number raw h fee_cap s)
      → min_l2_base_fee ≤ fee_cap
      → ((send_raw_transaction node raw m s).0 ≡ ok h)
        × ((send_raw_transaction node raw m s).2 ≡ (add_transaction t.pooled s).1)
  unfolding send_raw_transaction submit
  taken_lem number raw h fee_cap m s t pays = (
    ground (arith, t.some_bytes, t.decodes, t.same_fee_cap, t.converts, pays, t.taken),
    ground (arith, t.some_bytes, t.decodes, t.same_fee_cap, t.converts, pays, t.taken),
  )

  -- The node takes what the pool of another one lists, one transaction after the other, each in the
  -- state that the one before has left.
  abbrev pub TakesAll : ℕ → List PoolTx → State → Type 0
  TakesAll number [] s = Unit
  TakesAll number (tx ∷ txs) s =
      (t : Takes number tx.encoded_2718 tx.hash tx.max_fee_per_gas s) × TakesAll number txs
        (add_transaction t.pooled s).1

  TakesAll-append_left :
      (number : ℕ) (xs ys : List PoolTx) (s : State)
      → TakesAll number (xs ++ ys) s
      → TakesAll number xs s
  TakesAll-append_left number [] ys s h = tt
  TakesAll-append_left number (x ∷ xs) ys s h = (h.0, TakesAll-append_left number xs ys _ h.1)

  batch_lem :
      (number : ℕ) (txs : List PoolTx) (before : List ℕ) (m : TxMapping) (s : State) (h : ℕ)
      → TakesAll number txs s
      → All (λ (tx : PoolTx). min_l2_base_fee ≤ tx.max_fee_per_gas) txs
      → latest_header s ≡ some number
      → number + 1 < u64_mod
      → let out =
          send_raw_transactions node (map (λ (tx : PoolTx). tx.encoded_2718) txs) before m s in
        (out.0 ≡ before ++ map (λ (tx : PoolTx). tx.hash) txs)
        × (TxMapping.get_submission_block h out.1 ≡ (
            if contains h (map (λ (tx : PoolTx). tx.hash) txs)
            then some (number + 1)
            else TxMapping.get_submission_block h m))
  unfolding send_raw_transactions
  batch_lem number [] before m s h can pays latest small = (sym (append-nil before), refl)
  batch_lem number (tx ∷ txs) before m s h can pays latest small =
      let t = can.0 in
      let raw = tx.encoded_2718 in
      let sent = send_raw_transaction node raw m s in
      let known = taken_lem number raw tx.hash tx.max_fee_per_gas m s t pays.0 in
      let rest =
        batch_lem number txs (before ++ tx.hash ∷ []) sent.1 (add_transaction t.pooled s).1 h can.1
          pays.1 t.stays small in
      let fee : min_l2_base_fee ≤ max_fee_per_gas t.tx = ground (arith, t.same_fee_cap, pays.0) in
      let numbered =
        send_raw_transaction_numbers node raw t.tx number m s h t.some_bytes t.decodes fee latest
          small in
      (
        rw (known.0, known.1, send_raw_transactions)
            (rest.0 ∙ append_assoc before (tx.hash ∷ []) _),
        rw (known.0, known.1, send_raw_transactions)
            (ground (arith, rest.1, numbered, t.same_hash)),
      )

  -- One list of transactions is asked for, at a base fee of at least 2000 GWei, where no sum with a limit
  -- wraps around. The pending transactions that can pay the base fee decode again from their bytes, each
  -- with its hash and its fee cap, and the pool of another node accepts them when they are added to it in
  -- their order, each once and in the state that the one before has left, with the latest block there as
  -- it is. Then the bytes of the list, sent to that node in one batch, come back as the hashes of the
  -- list, all of them and in order; there each transaction of the list is found under the number after
  -- the latest block's, which fits a u64, and every other look-up is as before.
  pub handed_out_transactions_are_taken :
      (beneficiary base_fee max_gas max_bytes : ℕ) (locals : List (List ℕ)) (max_lists number : ℕ)
      (pending : List PoolTx) (m : TxMapping) (s : State) (h : ℕ)
      → All (Fits max_gas max_bytes) pending
      → 0 < max_lists
      → min_l2_base_fee ≤ base_fee
      → TakesAll number (keep_if (affordable base_fee) pending) s
      → latest_header s ≡ some number
      → number + 1 < u64_mod
      → (list : Selected) × (tx_pool_content beneficiary base_fee max_gas max_bytes locals max_lists
            pending
          ≡ list ∷ [])
        × (let hashes = map (λ (tx : PoolTx). tx.hash) list.transactions in
            let out =
              send_raw_transactions node
                (map (λ (tx : PoolTx). tx.encoded_2718) list.transactions)
                []
                m
                s in
            (out.0 ≡ hashes)
            × (TxMapping.get_submission_block h out.1 ≡ (
                if contains h hashes
                then some (number + 1)
                else TxMapping.get_submission_block h m)))
  handed_out_transactions_are_taken beneficiary base_fee max_gas max_bytes locals max_lists number
        pending m s h fits asked high can latest small =
      let content =
        tx_pool_content_is_a_prefix beneficiary base_fee max_gas max_bytes locals max_lists pending
          fits in
      let list = content.0 in
      let whole : TakesAll number (list.transactions ++ content.3) s = rw content.4 can in
      let rich : All (λ (tx : PoolTx). min_l2_base_fee ≤ tx.max_fee_per_gas)
          (list.transactions ++ content.3) =
        rw content.4 (pays_lem base_fee pending high) in
      (
        list,
        ground (arith, content.1, asked),
        batch_lem number list.transactions [] m s h
            (TakesAll-append_left number list.transactions content.3 s whole)
            (All-append_left _ list.transactions content.3 rich) latest small,
      )
