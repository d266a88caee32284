-- ===== src/Tests/Handover.antt =====
-- What one part of the node, or one node, hands to another: an assembled block as a payload, and the
-- pool's transactions as a batch.
use kx_reth.Prelude.{
  false, ℕ, ◌≡◌, refl, Option, none, some, List, [], ◌∷◌, map, arith, length, length-map, ok,
  Result, contains, if◌then◌else◌,
}
use kx_reth.TxMapping
use kx_reth.Block.Assembler.{assembled_header}
use kx_reth.Engine.{Block, Blocks}
use kx_reth.Engine.Numbers.{hashes}
use kx_reth.Engine.Roundtrip.{V1Codec, v1_block, Agree}
use kx_reth.Auth.{PoolTx, Selected, SendNode, tx_pool_content, send_raw_transactions}
use kx_reth.Auth.Batch.{Takes, handed_out_transactions_are_taken}
use kx_reth.Auth.MinTip.{
  ContentMap, entry_at, entry_of, tx_pool_content_with_min_tip, content_has_last_paying,
}
use kx_reth.Tests.Builders.{table}
use kx_reth.Tests.Blocks.{length_proofs, empty_ctx, next_env}
use kx_reth.Tests.Engines.{NamedBlock, convert, recover_block}

-- a payload keeps what a V1 payload carries of its block
abbrev v1_blocks : Blocks
v1_blocks = record {
  Tx = ℕ;
  V1 = NamedBlock;
  Error = Unit;
  Recovered = Block ℕ;
  hash = λ tx. tx;
  block_hash = λ p. p.0;
  base_fee_per_gas = λ p. 5;
  hash_slow = λ h. h.number;
  empty_withdrawals = 8;
  base_fee_error = tt;
  from_block_unchecked = λ h b. (h, v1_block 9 length b);
  try_into_block = convert;
  try_recover = recover_block;
  block_hash_lem = λ h b. refl;
  base_fee_lem = λ p b e. omega arith;
}

abbrev v1_codec : V1Codec v1_blocks
v1_codec = record {
  empty_ommer_root_hash = 9;
  calculate_transaction_root = length;
  v1_lem = λ h b short fits. refl;
}

abbrev as_sent : ℕ → ℕ
as_sent tx = tx

lengths_agree : (txs : List ℕ) → length (map as_sent txs) ≡ length txs
lengths_agree txs = length-map as_sent txs

abbrev agreed : Agree v1_blocks v1_codec length_proofs as_sent
agreed = record { same_ommers = refl; same_withdrawals = refl; same_root = lengths_agree }

abbrev sent_block : Block ℕ
sent_block = record {
  header = assembled_header length_proofs next_env empty_ctx (7 ∷ []) (2 ∷ []) 21000 6 700 12;
  transactions = 7 ∷ [];
}

-- a transaction is its hash and its fee cap, and so are its bytes
abbrev decode_pair : List ℕ → Option (ℕ × ℕ)
decode_pair [] = none
decode_pair (h ∷ []) = none
decode_pair (h ∷ fee ∷ bytes) = some (h, fee)

-- the state is the number of the latest block and the pool, which refuses what it already has
abbrev taking_node : SendNode
taking_node = record {
  Recovered = ℕ × ℕ;
  Pooled = ℕ;
  State = ℕ × List ℕ;
  hash = λ tx. tx.0;
  max_fee_per_gas = λ tx. tx.1;
  recover_raw_transaction = decode_pair;
  latest_header = λ s. some s.0;
  try_from_consensus = λ tx. some tx.0;
  add_transaction = λ tx s. if contains tx s.1 then (none, s) else (some tx, (s.0, tx ∷ s.1));
}

abbrev high_fee : ℕ
high_fee = 3_000_000_000_000

abbrev pub pool_tx : ℕ → ℕ → PoolTx
pool_tx h fee = record {
  hash = h;
  sender = 1;
  nonce = 0;
  max_fee_per_gas = fee;
  max_priority_fee_per_gas = some 5;
  gas_limit = 21000;
  encoded_2718 = h ∷ fee ∷ [];
}

abbrev two_pending : List PoolTx
two_pending = pool_tx 7 high_fee ∷ pool_tx 9 1 ∷ pool_tx 8 high_fee ∷ []

taken_at :
    (h fee : ℕ) (pool : List ℕ)
    → contains h pool ≡ false
    → Takes taking_node 160 (h ∷ fee ∷ []) h fee (160, pool)
taken_at h fee pool fresh = record {
  tx = (h, fee);
  pooled = h;
  some_bytes = omega arith;
  decodes = refl;
  same_hash = refl;
  same_fee_cap = refl;
  converts = refl;
  taken = rw fresh refl;
  stays = rw fresh refl;
}

handed_out_transactions_are_taken_example :
    (list : Selected) × (tx_pool_content 3 high_fee 60000 100 [] 1 two_pending ≡ list ∷ [])
    × (let hashes = map (λ (tx : PoolTx). tx.hash) list.transactions in
        let out =
          send_raw_transactions taking_node
            (map (λ (tx : PoolTx). tx.encoded_2718) list.transactions)
            []
            table
            (160, []) in
        (out.0 ≡ hashes)
        × (TxMapping.get_submission_block 7 out.1
            ≡ (if contains 7 hashes then some 161 else TxMapping.get_submission_block 7 table)))
unfolding taken_at
handed_out_transactions_are_taken_example =
    handed_out_transactions_are_taken taking_node 3 high_fee 60000 100 [] 1 160 two_pending table
      (160, []) 7
      ((omega arith, omega arith), ((omega arith, omega arith), ((omega arith, omega arith), tt)))
      (omega arith) (omega arith)
      (taken_at 7 high_fee [] refl, (taken_at 8 high_fee (7 ∷ []) refl, tt)) refl (omega arith)

-- the RPC form of a transaction is its hash
abbrev fill : PoolTx → Result (Unit {0}) ℕ
fill tx = ok tx.hash

content_has_last_paying_example :
    (of_pending : ContentMap fill) × (of_queued : ContentMap fill) × (tx_pool_content_with_min_tip
        fill 4 two_pending []
      ≡ ok (of_pending, of_queued))
    × ((s n : ℕ)
        → (entry_at fill s n of_pending
            ≡ entry_of fill (λ (tx : PoolTx). tx.hash) 4 s n two_pending)
          × (entry_at fill s n of_queued ≡ entry_of fill (λ (tx : PoolTx). tx.hash) 4 s n []))
content_has_last_paying_example =
    content_has_last_paying fill (λ (tx : PoolTx). tx.hash) 4 two_pending [] (λ tx. refl)
