-- ===== src/Auth.antt =====
-- crates/rpc/src/eth/auth.rs: the authenticated interface. The decoder and the node are parameters of
-- the calls that send; what the pool lists is an argument of the call that reads it.
pub mod Content
pub mod Send
pub mod MinTip
pub mod Batch
pub mod Rpc
use kx_reth.Prelude.{
  ℕ, suc, ◌≡◌, Bool, true, false, Option, none, some, List, [], ◌∷◌, ◌++◌, ltb, ◌==◌, length,
  Result, ok, err, if◌then◌else◌,
}
use kx_reth.Prelude.Word.{add_u64}
use kx_reth.TxMapping
use kx_reth.TxMapping.{TxMapping}

-- a transaction of the pool, the fields that are read
pub record PoolTx : Type 0 where
  pub hash : ℕ
  pub sender : ℕ
  pub nonce : ℕ
  pub max_fee_per_gas : ℕ
  pub max_priority_fee_per_gas : Option ℕ
  pub gas_limit : ℕ
  pub encoded_2718 : List ℕ

-- the local variables of the loop of `tx_pool_content`
pub record Selected : Type 0 where
  pub transactions : List PoolTx
  pub total_gas_used : ℕ
  pub total_bytes : ℕ

-- the loop over the pending transactions: `continue` below the base fee, `break` at a limit
unfoldable pub select : ℕ → ℕ → ℕ → List PoolTx → Selected → Selected
select base_fee max_gas max_bytes [] s = s
select base_fee max_gas max_bytes (tx ∷ txs) s = elim (ltb tx.max_fee_per_gas base_fee) [
  | true ↦ select base_fee max_gas max_bytes txs s
  | false ↦ elim (ltb max_gas (add_u64 s.total_gas_used tx.gas_limit)) [
    | true ↦ s
    | false ↦ elim (ltb max_bytes (add_u64 s.total_bytes (length tx.encoded_2718))) [
      | true ↦ s
      | false ↦ select base_fee max_gas max_bytes txs (record {
        transactions = s.transactions ++ tx ∷ [];
        total_gas_used = add_u64 s.total_gas_used tx.gas_limit;
        total_bytes = add_u64 s.total_bytes (length tx.encoded_2718);
      })
    ]
  ]
]

-- `tx_pool_content`: a list of at most one pre-built list. The fee recipient is only logged, and what
-- is computed from `locals` is not used.
unfoldable pub tx_pool_content : ℕ → ℕ → ℕ → ℕ → List (List ℕ) → ℕ → List PoolTx → List Selected
tx_pool_content beneficiary base_fee max_gas max_bytes locals max_transactions_lists pending =
    let start : Selected = record { transactions = []; total_gas_used = 0; total_bytes = 0 } in
    let pre_built = select base_fee max_gas max_bytes pending start in
    if ltb 0 max_transactions_lists then pre_built ∷ [] else []

-- the errors of `send_raw_transaction`
pub data SendError : Type 0 where
  empty_data decode_failed : SendError
  fee_too_low : ℕ → SendError
  convert_failed pool_refused : SendError

-- `recover_raw_transaction`, the provider's latest header (its number), the conversion to a pooled
-- transaction, and the pool
pub record SendNode : Type 1 where
  pub Recovered : Type 0
  pub Pooled : Type 0
  pub State : Type 0
  pub hash : Recovered → ℕ
  pub max_fee_per_gas : Recovered → ℕ
  pub recover_raw_transaction : List ℕ → Option Recovered
  pub latest_header : State → Option ℕ
  pub try_from_consensus : Recovered → Option Pooled
  pub add_transaction : Pooled → State → Option ℕ × State

-- 2000 GWei
abbrev pub min_l2_base_fee : ℕ
min_l2_base_fee = 2000000000000

module _ (node : SendNode) where
  open node use {
    Recovered, State, hash, max_fee_per_gas, recover_raw_transaction, latest_header,
    try_from_consensus, add_transaction,
  }

  -- `if let Ok(Some(header)) = self.provider.latest_header() { … insert(tx_hash, tx_number) }`
  unfoldable pub set_transaction_number : Recovered → State → TxMapping → TxMapping
  set_transaction_number recovered s m = elim (latest_header s) [
    | none ↦ m
    | some number ↦ TxMapping.insert (hash recovered) (add_u64 number 1) m
  ]

  -- from the conversion to a pooled transaction on
  unfoldable pub submit : Recovered → TxMapping → State → Result SendError ℕ × TxMapping × State
  submit recovered m s = elim (try_from_consensus recovered) [
    | none ↦ (err convert_failed, m, s)
    | some pooled ↦
        let (outcome, s') = add_transaction pooled s in
        elim outcome [ none ↦ (err pool_refused, m, s') | some h ↦ (ok h, m, s') ]
  ]

  -- `send_raw_transaction`
  unfoldable pub send_raw_transaction :
      List ℕ → TxMapping → State → Result SendError ℕ × TxMapping × State
  send_raw_transaction tx m s =
      if length tx == 0 then (err empty_data, m, s) else elim (recover_raw_transaction tx) [
        | none ↦ (err decode_failed, m, s)
        | some recovered ↦
            if ltb (max_fee_per_gas recovered) min_l2_base_fee
            then (err (fee_too_low (max_fee_per_gas recovered)), m, s)
            else submit recovered (set_transaction_number recovered s m) s
      ]

  -- `send_raw_transactions`, which always returns `Ok`
  unfoldable pub send_raw_transactions :
      List (List ℕ) → List ℕ → TxMapping → State → List ℕ × TxMapping × State
  send_raw_transactions [] hashes m s = (hashes, m, s)
  send_raw_transactions (tx ∷ txs) hashes m s =
      let (result, m', s') = send_raw_transaction tx m s in
      send_raw_transactions txs (elim result [ ok h ↦ hashes ++ h ∷ [] | err e ↦ hashes ]) m' s'
