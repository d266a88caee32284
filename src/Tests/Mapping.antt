-- ===== src/Tests/Mapping.antt =====
-- crates/tx_mapping and crates/txpool on two transactions.
use kx_reth.Prelude.HashMap
use kx_reth.Prelude.{arith, ◌≡◌, true, false, not, ◌&&◌, List, [], ◌∷◌}
use kx_reth.TxMapping.{TxMapping}
use kx_reth.TxMapping.Calls.{Op, run}
use kx_reth.TxMapping.Spec.{Fits, view, spec_run, run-refines}
use kx_reth.TxPool.{handle_kasplex_pool_reorg, in_pool, is_transaction_expired_for_pool}
use kx_reth.TxPool.Reorg.{numbered, pool_after_reorg}
use kx_reth.TxPool.Memory.{Lists, memory_pool}

-- 7 was submitted in block 40, 8 in block 160
abbrev table : TxMapping
table = record { mapping = (7, 40) ∷ (8, 160) ∷ []; deleted = []; reorg_in_progress = false }

abbrev calls : List Op
calls = Op.insert 9 100 ∷ Op.get_tx_number 7 ∷ Op.get_submission_block 7 ∷ Op.is_expired 9 200 ∷ []

abbrev two_lists : Lists
two_lists = record { pending = 7 ∷ 8 ∷ []; queued = 9 ∷ [] }

table-Fits : Fits (view table)
unfolding HashMap.get
table-Fits h n e = ground (arith, e)

run-refines_example : ((run calls table).0, view (run calls table).1) ≡ spec_run calls (view table)
run-refines_example = run-refines calls table (omega arith, (tt, (tt, (tt, tt)))) table-Fits

pool_after_reorg_example :
    (in_pool memory_pool 7 (handle_kasplex_pool_reorg memory_pool true 150 table two_lists).1 ≡ (
      in_pool memory_pool 7 two_lists
      && not (is_transaction_expired_for_pool 7 table 150 && numbered 7 table)))
    × ((handle_kasplex_pool_reorg memory_pool true 150 table two_lists).0
        ≡ record table { reorg_in_progress = false })
pool_after_reorg_example = pool_after_reorg memory_pool 150 table two_lists 7
