-- ===== src/Tests/Journey.antt =====
-- One transaction from its submission to the payload that carries it, and its stay in the pool.
use kx_reth.Prelude.{◌+◌, ◌≡◌, refl, true, false, none, some, [], ◌∷◌, arith, leb, ◌&&◌}
use kx_reth.Prelude.HashMap
use kx_reth.TxMapping
use kx_reth.Block.Config
use kx_reth.Payload.{
  execute_all_transactions, extract_transaction_number, finish_payload, kasplex_payload, open_block,
  store_numbers,
}
use kx_reth.Engine.{v1, block_to_payload, process_kasplex_execution_data}
use kx_reth.Auth.{send_raw_transaction, set_transaction_number, submit}
use kx_reth.Lifecycle.{number_from_send_to_payload}
use kx_reth.Lifecycle.Retention.{sent_transaction_stays_for}
use kx_reth.TxPool.{in_pool, handle_kasplex_pool_reorg}
use kx_reth.TxPool.Memory.{Lists, memory_pool}
use kx_reth.Tests.Builders.{byte_codec, list_builder, table}
use kx_reth.Tests.Payloads.{parent, plain_config, attributes, payload}
use kx_reth.Tests.Engines.{numbered_blocks, one_block}
use kx_reth.Tests.Requests.{refusing_node}

number_from_send_to_payload_example :
    let m3 = (block_to_payload numbered_blocks one_block table).1 in
    let m4 = (process_kasplex_execution_data numbered_blocks (v1 (160, one_block)) none m3).1 in
    (TxMapping.get_submission_block 7 (send_raw_transaction refusing_node (7 ∷ []) table 39).1
      ≡ some (39 + 1))
    × (TxMapping.get_submission_block 7 table ≡ some (39 + 1))
    × (TxMapping.get_submission_block 7 m3 ≡ some (39 + 1))
    × (TxMapping.get_submission_block 7 m4 ≡ none)
unfolding kasplex_payload open_block finish_payload store_numbers execute_all_transactions
    extract_transaction_number TxMapping.get_submission_block HashMap.get TxMapping.insert
    HashMap.insert HashMap.remove Config.set_next_block_extra_data
    Config.set_next_block_base_fee_per_gas Config.clear_next_block_extra_data
    Config.clear_next_block_base_fee_per_gas send_raw_transaction set_transaction_number submit
number_from_send_to_payload_example =
    number_from_send_to_payload refusing_node byte_codec list_builder numbered_blocks (7 ∷ []) 7 39
      table table 39 plain_config parent attributes (λ i. false) Config.new Config.new payload
      one_block (160, one_block) none (omega arith) refl (omega arith) refl (omega arith) refl refl
      refl

abbrev one_pending : Lists
one_pending = record { pending = 9 ∷ []; queued = [] }

-- 9 is sent on top of block 160, so it stays up to the head 261
sent_transaction_stays_for_example :
    in_pool memory_pool 9
      (handle_kasplex_pool_reorg memory_pool true 261
        (send_raw_transaction refusing_node (9 ∷ []) table 160).1
        one_pending).1
    ≡ (in_pool memory_pool 9 one_pending && (leb 161 261 && leb 261 261))
sent_transaction_stays_for_example =
    sent_transaction_stays_for refusing_node memory_pool (9 ∷ []) 9 160 261 table 160 one_pending
      (omega arith) refl (omega arith) refl (omega arith)
