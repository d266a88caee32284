-- ===== src/Tests/Schedules.antt =====
-- Threads on the shared mapping: a send, a payload that is processed while its block is handed out, and
-- clean-ups of the pool.
use kx_reth.Prelude.{ℕ, ◌≡◌, refl, true, false, none, some, [], ◌∷◌, ◌++◌, ◌⊎◌, ◌||◌}
use kx_reth.Prelude.HashMap
use kx_reth.TxMapping
use kx_reth.TxMapping.{TxMapping}
use kx_reth.TxPool.Memory.{Lists, memory_pool}
use kx_reth.Engine.{v1, block_to_payload, process_kasplex_execution_data}
use kx_reth.Shared.{number_given}
use kx_reth.Shared.Calls.{was_given}
use kx_reth.Concurrent.Program.{Program, pure, mark_start_pool_reorg, ◌>>◌, advance}
use kx_reth.Concurrent.Threads.{
  payload_thread, process_thread, send_thread, set_number_thread, reorg_thread, collect_each,
}
use kx_reth.Concurrent.System.{
  System, start, spawn, advance_at, schedule, run_schedule, Reach, sends, reorgs, runs, here, next,
}
use kx_reth.Concurrent.Sources.{numbers_have_sources}
use kx_reth.Concurrent.Leak.{processed_number_comes_back}
use kx_reth.Concurrent.Marks.{Clears}
use kx_reth.Concurrent.Reorg.{complete_at_rest, complete_too_early}
use kx_reth.Tests.Builders.{byte_codec, list_builder, table}
use kx_reth.Tests.Engines.{numbered_blocks, one_block}
use kx_reth.Tests.Requests.{refusing_node}

-- 9 is sent on top of block 160, and its thread has made its call
abbrev after_insert : System
after_insert = schedule 0 (record (spawn (send_thread refusing_node (9 ∷ []) 160) start) {
  sent = number_given refusing_node (9 ∷ []) 160 ++ [];
})

inserted :
    Reach refusing_node byte_codec list_builder numbered_blocks memory_pool start after_insert
inserted = next (next here (sends (9 ∷ []) 160)) (runs 0)

abbrev the_number : ℕ
the_number = 161

numbers_have_sources_example :
    (the_number ≡ 0)
    ⊎ ((was_given 9 the_number after_insert.sent
          || was_given 9 the_number after_insert.from_sidecars)
        ≡ true)
unfolding schedule advance_at advance send_thread set_number_thread TxMapping.get_submission_block
    HashMap.get TxMapping.insert HashMap.insert HashMap.remove
numbers_have_sources_example =
    numbers_have_sources refusing_node byte_codec list_builder numbered_blocks memory_pool
      after_insert 9 161 inserted refl

processed_number_comes_back_example :
    let payload = payload_thread numbered_blocks one_block in
    let process = process_thread numbered_blocks (v1 (160, one_block)) none in
    let s =
      run_schedule
        (1 ∷ 0 ∷ 1 ∷ [])
        (spawn process (spawn payload (record start { mapping = table }))) in
    (s.threads ≡ pure tt ∷ pure tt ∷ [])
    × (TxMapping.get_submission_block 7 s.mapping ≡ some 40)
    × (TxMapping.get_submission_block 7
          (process_kasplex_execution_data numbered_blocks
            (v1 (160, one_block))
            none
            (block_to_payload numbered_blocks one_block table).1).1
        ≡ none)
    × (TxMapping.get_submission_block 7
          (block_to_payload numbered_blocks one_block
            (process_kasplex_execution_data numbered_blocks (v1 (160, one_block)) none table).1).1
        ≡ some 0)
unfolding TxMapping.get_submission_block HashMap.get
processed_number_comes_back_example =
    processed_number_comes_back numbered_blocks (160, one_block) one_block one_block 7 40 table refl
      refl refl refl

abbrev empty_pool : Lists
empty_pool = record { pending = []; queued = [] }

-- a clean-up of an empty pool has marked its start and its end
abbrev after_reorg : System
after_reorg = schedule 0 (schedule 0 (spawn (reorg_thread memory_pool true 170 empty_pool) start))

cleaned_up :
    Reach refusing_node byte_codec list_builder numbered_blocks memory_pool start after_reorg
cleaned_up = next (next (next here (reorgs true 170 empty_pool)) (runs 0)) (runs 0)

complete_at_rest_example :
    (TxMapping.is_deleted_transaction 9 after_reorg.mapping ≡ false)
    × (TxMapping.is_reorg_complete after_reorg.mapping ≡ true)
unfolding schedule advance_at advance reorg_thread collect_each
complete_at_rest_example =
    complete_at_rest refusing_node byte_codec list_builder numbered_blocks memory_pool after_reorg 9
      cleaned_up (refl, tt)

complete_too_early_example :
    (s : System) × (older : Program (Unit {0})) × Reach refusing_node byte_codec list_builder
      numbered_blocks memory_pool start s
    × (s.threads ≡ pure tt ∷ older ∷ [])
    × ((reorg_thread memory_pool true 170 empty_pool >> pure tt) ≡ mark_start_pool_reorg older)
    × Clears older
    × (TxMapping.is_reorg_complete s.mapping ≡ true)
complete_too_early_example =
    complete_too_early refusing_node byte_codec list_builder numbered_blocks memory_pool 170 171
      empty_pool empty_pool
