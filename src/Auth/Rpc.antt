-- ===== src/Auth/Rpc.antt =====
-- crates/rpc/src/eth/auth.rs, `into_rpc`: how the parameters of a request reach the four methods.
-- jsonrpsee's `params.parse()` is an argument, already parsed or with its error; alloy's parsers of an
-- address and of a hexadecimal number are the parameter `Parsers`. A text is the list of its codes.
use kx_reth.Prelude.{
  ℕ, ◌≡◌, refl, Option, none, some, List, [], ◌∷◌, arith, ◌==◌, ◌&&◌, Result, ok, err,
  if◌then◌else◌, Option-cases, inl, inr, ◌⊎◌,
}
use kx_reth.TxMapping.{TxMapping}
use kx_reth.Auth.{
  PoolTx, Selected, SendNode, SendError, tx_pool_content, send_raw_transaction,
  send_raw_transactions,
}
use kx_reth.Auth.MinTip.{ContentMap, tx_pool_content_with_min_tip}

-- `strip_prefix("0x").unwrap_or(text)`
unfoldable pub strip_0x : List ℕ → List ℕ
strip_0x [] = []
strip_0x (a ∷ []) = a ∷ []
strip_0x (a ∷ b ∷ text) = if (a == 48) && (b == 120) then text else a ∷ b ∷ text

-- `Address::from_str` and `U256::from_str_radix(_, 16)`
pub record Parsers : Type 0 where
  pub address_from_str : List ℕ → Option ℕ
  pub u256_from_str_radix_16 : List ℕ → Option ℕ

-- an error of a request: what jsonrpsee says of the parameters, or the code's own
pub data RequestError (E : Type 0) : Type 0 where
  invalid_params : ℕ → RequestError E
  invalid_beneficiary invalid_base_fee : RequestError E
  refused : E → RequestError E

-- the parameters of `kasplexAuth_txPoolContent`, with the two texts as they come
pub record ContentParams : Type 0 where
  pub beneficiary : List ℕ
  pub base_fee : List ℕ
  pub block_max_gas_limit : ℕ
  pub max_bytes_per_tx_list : ℕ
  pub locals : List (List ℕ)
  pub max_transactions_lists : ℕ

-- `kasplexAuth_txPoolContent`
unfoldable pub handle_tx_pool_content :
    Parsers
    → Result ℕ ContentParams
    → List PoolTx
    → Result (RequestError (Unit {0})) (List Selected)
handle_tx_pool_content parsers (err e) pending = err (invalid_params e)
handle_tx_pool_content parsers (ok p) pending =
    elim (parsers.address_from_str (strip_0x p.beneficiary)) [
      | none ↦ err invalid_beneficiary
      | some beneficiary_addr ↦ elim (parsers.u256_from_str_radix_16 (strip_0x p.base_fee)) [
        | none ↦ err invalid_base_fee
        | some base_fee_u256 ↦ ok (
            tx_pool_content beneficiary_addr base_fee_u256 p.block_max_gas_limit
              p.max_bytes_per_tx_list p.locals p.max_transactions_lists pending)
      ]
    ]

-- `kasplexAuth_txPoolContentWithMinTip`
unfoldable pub handle_tx_pool_content_with_min_tip :
    {E Rpc : Type 0} (fill_pending : PoolTx → Result E Rpc)
    → Result ℕ ℕ
    → List PoolTx
    → List PoolTx
    → Result (RequestError E) (ContentMap fill_pending × ContentMap fill_pending)
handle_tx_pool_content_with_min_tip fill_pending (err e) pending queued = err (invalid_params e)
handle_tx_pool_content_with_min_tip fill_pending (ok min_tip) pending queued =
    elim (tx_pool_content_with_min_tip fill_pending min_tip pending queued) [
      | err e ↦ err (refused e)
      | ok content ↦ ok content
    ]

module _ (node : SendNode) where
  open node use {State}

  -- `kasplexAuth_sendRawTransaction`
  unfoldable pub handle_send_raw_transaction :
      Result ℕ (List ℕ) → TxMapping → State → Result (RequestError SendError) ℕ × TxMapping × State
  handle_send_raw_transaction (err e) m s = (err (invalid_params e), m, s)
  handle_send_raw_transaction (ok tx) m s =
      let (result, m', s') = send_raw_transaction node tx m s in
      (elim result [ err e ↦ err (refused e) | ok h ↦ ok h ], m', s')

  -- `kasplexAuth_sendRawTransactions`
  unfoldable pub handle_send_raw_transactions :
      Result ℕ (List (List ℕ))
      → TxMapping
      → State
      → Result (RequestError SendError) (List ℕ) × TxMapping × State
  handle_send_raw_transactions (err e) m s = (err (invalid_params e), m, s)
  handle_send_raw_transactions (ok txs) m s =
      let (hashes, m', s') = send_raw_transactions node txs [] m s in (ok hashes, m', s')

-- A text loses exactly one prefix.
pub strip_0x-prefixed : (text : List ℕ) → strip_0x (48 ∷ 120 ∷ text) ≡ text
unfolding strip_0x
strip_0x-prefixed text = refl

-- A request for content is answered exactly when its parameters parse, the beneficiary is an address
-- and the base fee a hexadecimal number, each with or without its prefix; the answer does not depend
-- on the address, and a bad beneficiary is reported before a bad base fee.
pub content_is_answered :
    (parsers : Parsers) (p : ContentParams) (pending : List PoolTx)
    → let address = parsers.address_from_str (strip_0x p.beneficiary) in
      let fee = parsers.u256_from_str_radix_16 (strip_0x p.base_fee) in
      let answer = handle_tx_pool_content parsers (ok p) pending in
      ((address ≡ none) × (answer ≡ err invalid_beneficiary))
      ⊎ (((a : ℕ) × (address ≡ some a) × (fee ≡ none) × (answer ≡ err invalid_base_fee))
          ⊎ ((a : ℕ) × (n : ℕ) × (address ≡ some a)
              × (fee ≡ some n)
              × (answer
                  ≡ ok (
                      tx_pool_content 0 n p.block_max_gas_limit p.max_bytes_per_tx_list []
                        p.max_transactions_lists pending))))
unfolding handle_tx_pool_content tx_pool_content
content_is_answered parsers p pending =
    elim (Option-cases (parsers.address_from_str (strip_0x p.beneficiary))) [
      | inl q ↦ inl (q, ground (arith, q))
      | inr (a, q) ↦ elim (Option-cases (parsers.u256_from_str_radix_16 (strip_0x p.base_fee))) [
        | inl r ↦ inr (inl (a, q, r, ground (arith, q, r)))
        | inr (n, r) ↦ inr (inr (a, n, q, r, ground (arith, q, r)))
      ]
    ]
