-- ===== src/TxMapping/Calls.antt =====
-- crates/tx_mapping/src/lib.rs: the calls that the other crates make on the shared instance, as data,
-- and schedules of them.
use kx_reth.Prelude.{ℕ, Bool, Option, List, [], ◌∷◌}
use kx_reth.Prelude.HashMap.{HashMap}
use kx_reth.TxMapping
use kx_reth.TxMapping.{TxMapping}

pub data Op : Type 0 where
  set_mapping : HashMap ℕ → Op
  get_tx_number add_deleted is_deleted get_submission_block : ℕ → Op
  mark_start mark_reorged is_reorg_complete clear : Op
  insert is_expired : ℕ → ℕ → Op

pub data Reply : Type 0 where
  done : Reply
  number : ℕ → Reply
  flag : Bool → Reply
  block : Option ℕ → Reply

-- one call on the shared instance
unfoldable pub step : Op → TxMapping → Reply × TxMapping
step (Op.set_mapping m) s = (done, TxMapping.set_mapping m s)
step (Op.get_tx_number h) s = let (n, s') = TxMapping.get_tx_number h s in (number n, s')
step (Op.add_deleted h) s = (done, TxMapping.add_deleted_transaction h s)
step (Op.is_deleted h) s = (flag (TxMapping.is_deleted_transaction h s), s)
step (Op.get_submission_block h) s = (block (TxMapping.get_submission_block h s), s)
step Op.mark_start s = (done, TxMapping.mark_start_pool_reorg s)
step Op.mark_reorged s = (done, TxMapping.mark_pool_reorged s)
step Op.is_reorg_complete s = (flag (TxMapping.is_reorg_complete s), s)
step Op.clear s = (done, TxMapping.clear s)
step (Op.insert h n) s = (done, TxMapping.insert h n s)
step (Op.is_expired h current) s = (flag (TxMapping.is_transaction_expired h current s), s)

-- a schedule of calls, from whatever threads, in the order in which they took the lock
unfoldable pub run : List Op → TxMapping → List Reply × TxMapping
run [] s = ([], s)
run (op ∷ ops) s = let (r, s') = step op s in let (rs, s'') = run ops s' in (r ∷ rs, s'')
