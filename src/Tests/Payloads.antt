-- ===== src/Tests/Payloads.antt =====
-- crates/primitives/src/payload and crates/payload: a build of two transactions, the second of which is
-- refused by the block builder. A transaction is its hash.
use kx_reth.Prelude.{ℕ, ◌≡◌, ◌≢◌, ◌<◌, refl, false, none, some, List, [], ◌∷◌, arith, length, ◌⊎◌}
use kx_reth.Prelude.Word.{u64_mod}
use kx_reth.Prelude.HashMap
use kx_reth.TxMapping
use kx_reth.TxMapping.{TxMapping}
use kx_reth.Block.{SealedHeader}
use kx_reth.Block.Config
use kx_reth.Block.Config.{Cells, InnerConfig}
use kx_reth.Attributes.{BuilderAttributes, payload_id_kasplex}
use kx_reth.Attributes.Laws.{payload_id_depends_on}
use kx_reth.Payload.{
  Built, BuiltPayload, Outcome, done, freeze, build_panicked, invalid_tx, other,
  execute_all_transactions, extract_transaction_number, finish_payload, kasplex_payload, open_block,
  store_numbers,
}
use kx_reth.Payload.Loop.{
  Runs, after_taken, after_refused, at_end, Left, execute_all_transactions_finishes,
}
use kx_reth.Block.Config.{Cells}
use kx_reth.Payload.Mapping.{Frozen, kasplex_payload_freezes, kasplex_payload_fails}
use kx_reth.Tests.Builders.{
  byte_codec, list_builder, rpc_attributes, other_limit, table, parent_header,
}

payload_id_depends_on_example :
    (rest : List ℕ) × (payload_id_kasplex byte_codec 5 rpc_attributes 2 ≡ 2 ∷ rest)
    × (payload_id_kasplex byte_codec 5 other_limit 2 ≡ 2 ∷ rest)
    × (length rest ≡ 7)
payload_id_depends_on_example =
    payload_id_depends_on byte_codec 5 rpc_attributes other_limit 2 refl refl

abbrev start : Built byte_codec list_builder
start = record { state = []; total_fees = 0; transaction_numbers = [] }

abbrev built : Built byte_codec list_builder
built = record { state = (7, 21000) ∷ []; total_fees = 42000; transaction_numbers = 40 ∷ [] }

pub invalid_tx_not_other : (n : ℕ) → invalid_tx ≢ other n
invalid_tx_not_other n e = ground (arith, e)

-- 7 runs and leaves the tip 2, 8 is refused
abbrev pub seven_runs : Runs byte_codec list_builder 5 (7 ∷ 8 ∷ []) []
seven_runs =
    after_taken 7 (8 ∷ []) [] 21000 2 refl refl
      (after_refused 8 [] ((7, 21000) ∷ []) invalid_tx refl invalid_tx_not_other (at_end _))

execute_all_transactions_finishes_example :
    (b : Built byte_codec list_builder) × (execute_all_transactions byte_codec list_builder
        (λ i. false)
        5
        table
        0
        (7 ∷ 8 ∷ [])
        start
      ≡ done b)
    × Left byte_codec list_builder 5 table ((7, 21000) ∷ []) ((7, 21000) ∷ []) start b
execute_all_transactions_finishes_example =
    execute_all_transactions_finishes byte_codec list_builder (λ i. false) 5 table 0 start
      (λ i. refl) (omega arith) seven_runs

abbrev pub parent : SealedHeader
parent = record { header = parent_header; hash = 5 }

abbrev pub plain_config : InnerConfig
plain_config = record {
  next_evm_env = λ h a. record {
    number = 161;
    beneficiary = a.suggested_fee_recipient;
    timestamp = a.timestamp;
    gas_limit = a.gas_limit;
    basefee = 7;
    difficulty = 0;
    prevrandao = some a.prev_randao;
  };
}

abbrev pub attributes : BuilderAttributes byte_codec
attributes = record {
  payload_attributes = record {
    id = 2 ∷ [];
    parent = 5;
    timestamp = 700;
    suggested_fee_recipient = 3;
    prev_randao = 4;
    withdrawals = [];
    parent_beacon_block_root = none;
  };
  tx_list_hash = 2;
  beneficiary = 3;
  gas_limit = 15000000;
  timestamp = 701;
  mix_hash = 4;
  base_fee_per_gas = 5;
  transactions = 7 ∷ 8 ∷ [];
  extra_data = 1 ∷ [];
}

abbrev pub payload : BuiltPayload byte_codec list_builder
payload = record { id = 2 ∷ []; block = 7 ∷ []; fees = 42000 }

kasplex_payload_freezes_example :
    (5 < u64_mod) × Frozen byte_codec list_builder table 5 payload Config.new table
unfolding kasplex_payload open_block finish_payload store_numbers execute_all_transactions
    extract_transaction_number TxMapping.get_submission_block HashMap.get TxMapping.insert
    HashMap.insert HashMap.remove Config.set_next_block_extra_data
    Config.set_next_block_base_fee_per_gas Config.clear_next_block_extra_data
    Config.clear_next_block_base_fee_per_gas
kasplex_payload_freezes_example =
    kasplex_payload_freezes byte_codec list_builder plain_config parent attributes (λ i. false)
      Config.new Config.new table table payload refl

abbrev huge_fee : BuilderAttributes byte_codec
huge_fee = record attributes { base_fee_per_gas = 18446744073709551616 }

abbrev panic : Outcome byte_codec list_builder
panic = build_panicked

not_frozen : (p : BuiltPayload byte_codec list_builder) → panic ≢ freeze p
not_frozen p e = cc

kasplex_payload_fails_example :
    (table ≡ table) × ((Config.new ≡ Config.new) ⊎ (Config.new ≡ Config.new))
unfolding kasplex_payload
kasplex_payload_fails_example =
    kasplex_payload_fails byte_codec list_builder plain_config parent huge_fee (λ i. false)
      Config.new Config.new table table panic refl not_frozen
