-- ===== src/Tests/Threads.antt =====
-- crates/payload and crates/block: two builds at once, a build alone, and a build that the consensus
-- rules of the node then check.
use kx_reth.Prelude.{ℕ, ◌≡◌, ◌↔◌, ◌⊎◌, ◌&&◌, refl, false, some, [], ◌∷◌, arith, ok}
use kx_reth.Prelude.HashMap
use kx_reth.TxMapping
use kx_reth.TxMapping.{TxMapping}
use kx_reth.Block.{BlockEnv, BlockExecutionCtx}
use kx_reth.Block.Config
use kx_reth.Block.Config.{Cells, InnerConfig}
use kx_reth.Block.Assembler.{AssembledBlock, assemble_block}
use kx_reth.Block.Assembler.Accepted.{header_view}
use kx_reth.Consensus.{kasplex_base_fee, validate_header, validate_header_against_parent}
use kx_reth.Payload.{
  freeze, execute_all_transactions, extract_transaction_number, finish_payload, kasplex_payload,
  open_block, next_block_attributes, store_numbers,
}
use kx_reth.Payload.Loop.{numbers}
use kx_reth.Payload.Mapping.{Frozen}
use kx_reth.Payload.Threads.{Job, run}
use kx_reth.Payload.Threads.Race.{
  IsSound, is_opened, job_of, start, overwritten, cleared, every_schedule-IsSound, builds_can_mix,
}
use kx_reth.Payload.Threads.Alone.{undisturbed, job_for, undisturbed_is_open_block}
use kx_reth.Payload.Threads.Stale.{kasplex_payload_meanwhile, stored_over, stale_numbers_are_stored}
use kx_reth.Payload.Total.{Cooperates, kasplex_payload_delivers}
use kx_reth.Payload.FixedFee.{opened_env, opened_ctx, built_block_is_accepted_iff}
use kx_reth.Tests.Builders.{byte_codec, list_builder, table, parent_header}
use kx_reth.Tests.Blocks.{length_proofs, pass_all}
use kx_reth.Tests.Payloads.{attributes, seven_runs, parent, payload, plain_config}

abbrev first_job : Job
first_job = job_of parent (next_block_attributes byte_codec list_builder attributes) (1 ∷ []) 5

abbrev second_job : Job
second_job = job_of parent (next_block_attributes byte_codec list_builder attributes) (2 ∷ []) 6

every_schedule-IsSound_example :
    let s = run plain_config overwritten (start first_job second_job) in
    IsSound plain_config s
    × (((is_opened s.first.phase && is_opened s.second.phase) ≡ false) ⊎ (s.cells ≡ Config.new))
every_schedule-IsSound_example =
    every_schedule-IsSound plain_config first_job second_job overwritten (refl, refl) (refl, refl)

builds_can_mix_example :
    let s = run plain_config overwritten (start first_job second_job) in
    let t = run plain_config cleared (start first_job second_job) in
    ((env : BlockEnv) × (ctx : BlockExecutionCtx) × (s.first.env ≡ some env)
      × (s.first.ctx ≡ some ctx)
      × (env.basefee ≡ 6)
      × (ctx.extra_data ≡ 2 ∷ []))
    × ((env : BlockEnv) × (ctx : BlockExecutionCtx) × (t.first.env ≡ some env)
        × (t.first.ctx ≡ some ctx)
        × (env
            ≡ plain_config.next_evm_env parent_header
                (next_block_attributes byte_codec list_builder attributes))
        × (ctx.extra_data ≡ []))
builds_can_mix_example =
    builds_can_mix plain_config parent parent
      (next_block_attributes byte_codec list_builder attributes)
      (next_block_attributes byte_codec list_builder attributes) (1 ∷ []) (2 ∷ []) 5 6

undisturbed_is_open_block_example :
    let s = run plain_config undisturbed (record {
      first = job_for byte_codec list_builder parent attributes 5;
      second = second_job;
      cells = Config.new;
    }) in
    let env =
      record (plain_config.next_evm_env parent_header
        (next_block_attributes byte_codec list_builder attributes)) { basefee = 5 } in
    (ctx : BlockExecutionCtx) × (s.first.env ≡ some env)
    × (s.first.ctx ≡ some ctx)
    × (ctx.parent_hash ≡ 5)
    × (ctx.extra_data ≡ 1 ∷ [])
    × (s.cells ≡ Config.new)
    × (s.second ≡ second_job)
    × (open_block byte_codec list_builder plain_config parent attributes tt 5 Config.new
        ≡ (list_builder.create_block_builder tt env parent ctx, Config.new))
undisturbed_is_open_block_example =
    undisturbed_is_open_block byte_codec list_builder plain_config parent attributes tt 5 Config.new
      second_job

abbrev cooperates : Cooperates byte_codec list_builder 5 (7 ∷ 8 ∷ []) tt []
cooperates = record { prepares = refl; runs = seven_runs; block = 7 ∷ []; finishes = refl }

abbrev stored : TxMapping
stored =
    store_numbers byte_codec list_builder (7 ∷ []) 0
      (numbers byte_codec list_builder table ((7, 21000) ∷ [])) table

kasplex_payload_delivers_example :
    (kasplex_payload byte_codec list_builder plain_config parent attributes
        (λ i. false)
        Config.new
        table
      ≡ (freeze payload, Config.new, stored))
    × Frozen byte_codec list_builder table 5 payload Config.new stored
unfolding open_block
kasplex_payload_delivers_example =
    kasplex_payload_delivers byte_codec list_builder plain_config parent attributes (λ i. false)
      Config.new table tt refl (omega arith) (λ i. refl) cooperates

abbrev env_at_5 : BlockEnv
env_at_5 = opened_env byte_codec list_builder plain_config parent attributes 5

abbrev ctx_at_5 : BlockExecutionCtx
ctx_at_5 = opened_ctx byte_codec list_builder parent attributes

abbrev five : ℕ
five = 5

-- the base fee 5 is not the fixed one, so the block is not accepted
built_block_is_accepted_iff_example :
    (open_block byte_codec list_builder plain_config parent attributes tt 5 Config.new
      ≡ ([], Config.new))
    × (b : AssembledBlock length_proofs) × (assemble_block length_proofs env_at_5 ctx_at_5
          (7 ∷ [])
          (2 ∷ [])
          21000
          6
        ≡ some b)
    × (((validate_header header_view pass_all b.header ≡ ok tt)
          × (validate_header_against_parent header_view pass_all b.header parent_header ≡ ok tt))
        ↔ (five ≡ kasplex_base_fee))
unfolding next_block_attributes
built_block_is_accepted_iff_example =
    built_block_is_accepted_iff byte_codec list_builder length_proofs pass_all plain_config parent
      attributes tt 5 Config.new (7 ∷ []) (2 ∷ []) 21000 6 refl (omega arith) (omega arith)
      (omega arith) refl
      (record {
        extra_data_passes = refl;
        gas_passes = refl;
        base_fee_passes = refl;
        parent_passes = refl;
      })

-- 7 was sent again while it was built, under the number 170
abbrev sent_again : TxMapping
sent_again = record { mapping = (7, 170) ∷ []; deleted = []; reorg_in_progress = false }

abbrev overwritten_table : TxMapping
overwritten_table = record { mapping = (7, 40) ∷ []; deleted = []; reorg_in_progress = false }

stale_numbers_are_stored_example :
    TxMapping.get_submission_block 7 overwritten_table
    ≡ stored_over byte_codec list_builder table sent_again (7 ∷ []) 7
unfolding kasplex_payload_meanwhile open_block finish_payload store_numbers execute_all_transactions
    extract_transaction_number TxMapping.get_submission_block HashMap.get TxMapping.insert
    HashMap.insert HashMap.remove Config.set_next_block_extra_data
    Config.set_next_block_base_fee_per_gas Config.clear_next_block_extra_data
    Config.clear_next_block_base_fee_per_gas
stale_numbers_are_stored_example =
    stale_numbers_are_stored byte_codec list_builder plain_config parent attributes (λ i. false)
      Config.new Config.new table sent_again overwritten_table payload 7 refl
