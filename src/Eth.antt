-- ===== src/Eth.antt =====
-- crates/rpc/src/eth/{types,eth,error}.rs: the public Eth interface. Nearly all of it passes its calls
-- on to reth's `EthApi`; what it does itself is `send_raw_transaction`. The decoder, the broadcast and
-- the insertion into the pool are the parameter `EthNode`.
pub mod Unnumbered
pub mod Delegation
use kx_reth.Prelude.{ℕ, ◌≡◌, true, Option, List, [], ◌∷◌, Result, ok, err}
use kx_reth.TxMapping.{TxMapping}
use kx_reth.TxPool.{Pool, in_pool}

-- `EthApiError`, by where it comes from
pub data EthApiError (D P : Type 0) : Type 0 where
  not_recovered : D → EthApiError D P
  pool_error : P → EthApiError D P

pub record EthNode (pool : Pool) : Type 1 where
  pub Recovered : Type 0
  pub Pooled : Type 0
  pub Subscribers : Type 0
  pub DecodeError : Type 0
  pub PoolError : Type 0
  pub recover_raw_transaction : List ℕ → Result DecodeError Recovered
  pub broadcast_raw_transaction : List ℕ → Subscribers → Subscribers
  pub from_pooled : Recovered → Pooled
  pub add_transaction : Pooled → pool.State → Result PoolError ℕ × pool.State
  -- the transaction whose hash comes back is in the pool
  pub add_lem :
      (tx : Pooled) (s : pool.State) (h : ℕ)
      → (add_transaction tx s).0 ≡ ok h
      → in_pool pool h (add_transaction tx s).1 ≡ true

-- The state that the call can reach: who listens for raw transactions, the pool, and the mapping that
-- all parts of the node share.
pub record EthState (Subscribers Txs : Type 0) : Type 0 where
  pub subscribers : Subscribers
  pub txs : Txs
  pub mapping : TxMapping

module _ (pool : Pool) (node : EthNode pool) where
  open node use {
    Subscribers, DecodeError, PoolError, recover_raw_transaction, broadcast_raw_transaction,
    from_pooled, add_transaction,
  }

  abbrev pub State : Type 0
  State = EthState Subscribers pool.State

  -- `send_raw_transaction`
  unfoldable pub send_raw_transaction :
      List ℕ → State → Result (EthApiError DecodeError PoolError) ℕ × State
  send_raw_transaction tx s = elim (recover_raw_transaction tx) [
    | err e ↦ (err (not_recovered e), s)
    | ok recovered ↦
        let heard = broadcast_raw_transaction tx s.subscribers in
        let (outcome, txs') = add_transaction (from_pooled recovered) s.txs in
        let s' = record s { subscribers = heard; txs = txs' } in
        elim outcome [ err e ↦ (err (pool_error e), s') | ok h ↦ (ok h, s') ]
  ]

-- `get_sync_mode`, the text `full`
abbrev pub get_sync_mode : List ℕ
get_sync_mode = 102 ∷ 117 ∷ 108 ∷ 108 ∷ []

-- `KasplexApiError`
pub data KasplexApiError : Type 0 where
  geth_not_found : KasplexApiError

-- the JSON-RPC error of a `KasplexApiError`: the negative of its code, and its text
unfoldable pub error_object : KasplexApiError → ℕ × List ℕ
error_object geth_not_found = (32004, 110 ∷ 111 ∷ 116 ∷ 32 ∷ 102 ∷ 111 ∷ 117 ∷ 110 ∷ 100 ∷ [])
