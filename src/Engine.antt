-- ===== src/Engine.antt =====
-- crates/primitives/src/engine/{mod,types}.rs and crates/rpc/src/engine/{validator,api}.rs: blocks and
-- payloads of the engine API. alloy's conversions and the hash of a header are the parameter `Blocks`.
pub mod Validator
pub mod Numbers
pub mod Api
pub mod Cleanup
pub mod Roundtrip
pub mod Rules
use kx_reth.Prelude.{
  ℕ, ◌≡◌, ◌<◌, Bool, true, false, not, Option, none, some, List, [], ◌∷◌, map, length, ◌==◌, ◌&&◌,
  unwrap_or, if◌then◌else◌, Result, ok, err, is_some,
}
use kx_reth.Prelude.Word.{u64_mod}
use kx_reth.TxMapping
use kx_reth.TxMapping.{TxMapping}
use kx_reth.Block.{Header}

-- alloy's `ExecutionPayload`; of V2 and V3 nothing is read
pub data ExecutionPayload (V1 : Type 0) : Type 0 where
  v1 : V1 → ExecutionPayload V1
  v2 v3 : ExecutionPayload V1

-- `KasplexExecutionDataSidecar`
pub record KasplexExecutionDataSidecar : Type 0 where
  pub tx_hash : ℕ
  pub withdrawals_hash : ℕ
  pub numbers : List ℕ
  pub kasplex_block : Bool

-- `KasplexExecutionData`
pub record KasplexExecutionData (V1 : Type 0) : Type 0 where
  pub execution_payload : V1
  pub kasplex_sidecar : KasplexExecutionDataSidecar

-- a block of alloy: its header and its transactions
pub record Block (Tx : Type 0) : Type 0 where
  pub header : Header
  pub transactions : List Tx

-- alloy's payload and its conversions, the hash of a header, and the recovery of the signers
pub record Blocks : Type 1 where
  pub Tx : Type 0
  pub V1 : Type 0
  pub Error : Type 0
  pub Recovered : Type 0
  pub hash : Tx → ℕ
  pub block_hash : V1 → ℕ
  pub base_fee_per_gas : V1 → ℕ
  pub hash_slow : Header → ℕ
  pub empty_withdrawals : ℕ
  -- the error of a base fee that is no u64, here at 0
  pub base_fee_error : Error
  pub from_block_unchecked : ℕ → Block Tx → V1
  pub try_into_block : V1 → Result Error (Block Tx)
  pub try_recover : Block Tx → Result Error Recovered
  pub block_hash_lem : (h : ℕ) (b : Block Tx) → block_hash (from_block_unchecked h b) ≡ h
  pub base_fee_lem :
      (p : V1) (b : Block Tx) → try_into_block p ≡ ok b → base_fee_per_gas p < u64_mod

-- `is_kasplex_block`
unfoldable pub is_kasplex_block : {V1 : Type 0} → Option (KasplexExecutionData V1) → Bool
is_kasplex_block none = false
is_kasplex_block (some extra) = extra.kasplex_sidecar.kasplex_block

-- `kasplex_accept_tx_hash`, with `chain_spec.is_kasplex()` as its first argument
unfoldable pub kasplex_accept_tx_hash :
    {V1 : Type 0} → Bool → Option (KasplexExecutionData V1) → Bool
kasplex_accept_tx_hash is_kasplex extra =
    if not is_kasplex
    then false
    else elim extra [ none ↦ false | some d ↦ not (d.kasplex_sidecar.tx_hash == 0) ]

module _ (blocks : Blocks) where
  open blocks use {
    Tx, V1, Error, hash, block_hash, hash_slow, empty_withdrawals, base_fee_error,
    from_block_unchecked, try_into_block,
  }

  -- the loops `for (tx, number) in transactions.iter().zip(numbers.iter()) { tx_mapping.insert(…) }`
  unfoldable pub insert_all : List Tx → List ℕ → TxMapping → TxMapping
  insert_all [] numbers m = m
  insert_all (tx ∷ txs) [] m = m
  insert_all (tx ∷ txs) (n ∷ ns) m = insert_all txs ns (TxMapping.insert (hash tx) n m)

  -- the loop `for tx in transactions { tx_mapping.get_tx_number(tx_hash); }`
  unfoldable pub take_all : List Tx → TxMapping → TxMapping
  take_all [] m = m
  take_all (tx ∷ txs) m = take_all txs (TxMapping.get_tx_number (hash tx) m).1

  -- `block_to_payload`
  unfoldable pub block_to_payload : Block Tx → TxMapping → ExecutionPayload V1 × TxMapping
  block_to_payload block m =
      let block_hash = hash_slow block.header in
      let numbers =
        map (λ tx. unwrap_or (TxMapping.get_submission_block (hash tx) m) 0) block.transactions in
      let payload = from_block_unchecked block_hash block in
      (v1 payload, insert_all block.transactions numbers m)

  -- `if block.header.withdrawals_root.is_none() { … = Some(EMPTY_WITHDRAWALS) }`
  unfoldable pub fix_withdrawals_root : Block Tx → Block Tx
  fix_withdrawals_root block = elim block.header.withdrawals_root [
    | some root ↦ block
    | none ↦ record block {
      header = record block.header { withdrawals_root = some empty_withdrawals };
    }
  ]

  -- `if !numbers.is_empty() && numbers.len() == transactions.len()` and its body
  unfoldable pub restore_numbers : List Tx → List ℕ → TxMapping → TxMapping
  restore_numbers txs numbers m =
      if not (length numbers == 0) && (length numbers == length txs)
      then insert_all txs numbers m
      else m

  -- `process_kasplex_execution_data`
  unfoldable pub process_kasplex_execution_data :
      ExecutionPayload V1
      → Option (KasplexExecutionData V1)
      → TxMapping
      → Result Error (Block Tx) × TxMapping
  process_kasplex_execution_data v2 extra m = (err base_fee_error, m)
  process_kasplex_execution_data v3 extra m = (err base_fee_error, m)
  process_kasplex_execution_data (v1 payload) extra m = elim (try_into_block payload) [
    | err e ↦ (err e, m)
    | ok converted ↦
        let block = fix_withdrawals_root converted in
        let m' : TxMapping = elim extra [
          | none ↦ m
          | some d ↦ restore_numbers block.transactions d.kasplex_sidecar.numbers m
        ] in
        (ok block, take_all block.transactions m')
  ]
