-- ===== src/Tests/Requests.antt =====
-- crates/rpc/src/eth/auth.rs: two pending transactions, of which one can pay, and one that is sent.
use kx_reth.Prelude.{ℕ, ◌≡◌, Option, none, some, List, [], ◌∷◌, ◌++◌, arith, keep_if}
use kx_reth.Auth.{PoolTx, Selected, SendNode, tx_pool_content}
use kx_reth.Auth.Content.{affordable, Within, Stops, tx_pool_content_is_a_prefix}

abbrev rich : PoolTx
rich = record {
  hash = 7;
  sender = 1;
  nonce = 0;
  max_fee_per_gas = 9;
  max_priority_fee_per_gas = none;
  gas_limit = 21000;
  encoded_2718 = 1 ∷ 2 ∷ [];
}

abbrev poor : PoolTx
poor = record {
  hash = 8;
  sender = 1;
  nonce = 1;
  max_fee_per_gas = 1;
  max_priority_fee_per_gas = some 1;
  gas_limit = 21000;
  encoded_2718 = 3 ∷ [];
}

tx_pool_content_is_a_prefix_example :
    (out : Selected) × (tx_pool_content 3 5 30000 100 [] 1 (poor ∷ rich ∷ rich ∷ []) ≡ out ∷ [])
    × Within 30000 100 out
    × (rest : List PoolTx) × (out.transactions ++ rest
        ≡ keep_if (affordable 5) (poor ∷ rich ∷ rich ∷ []))
    × Stops 30000 100 out rest
tx_pool_content_is_a_prefix_example =
    tx_pool_content_is_a_prefix 3 5 30000 100 [] 1 (poor ∷ rich ∷ rich ∷ [])
      ((omega arith, omega arith), ((omega arith, omega arith), ((omega arith, omega arith), tt)))

-- a raw transaction decodes to its first byte, and the pool refuses everything
abbrev pub first_byte : List ℕ → Option ℕ
first_byte [] = none
first_byte (b ∷ bs) = some b

abbrev pub refusing_node : SendNode
refusing_node = record {
  Recovered = ℕ;
  Pooled = ℕ;
  State = ℕ;
  hash = λ tx. tx;
  max_fee_per_gas = λ tx. 2000000000000;
  recover_raw_transaction = first_byte;
  latest_header = λ s. some s;
  try_from_consensus = λ tx. some tx;
  add_transaction = λ tx s. (none, s);
}
