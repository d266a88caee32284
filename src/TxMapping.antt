-- ===== src/TxMapping.antt =====
-- crates/tx_mapping/src/lib.rs: the map from a transaction's hash to the number of the block it was
-- submitted in. Each method holds the lock from its first line to its last, so a call is one step on
-- the state; the panic on a poisoned lock needs a panic inside a method, and none of them panics.
pub mod Calls
pub mod Spec
pub mod Laws
pub mod Expiry
use kx_reth.Prelude.{
  ℕ, Bool, true, false, not, ◌||◌, Option, none, some, List, [], ◌∷◌, ltb, ◌==◌, length, contains,
  unwrap_or,
}
use kx_reth.Prelude.HashMap
use kx_reth.Prelude.HashMap.{HashMap}
use kx_reth.Prelude.HashSet
use kx_reth.Prelude.HashSet.{HashSet}
use kx_reth.Prelude.Word.{add_u64}

-- `UNEXECUTED_TX_RETENTION_BLOCKS`
abbrev pub unexecuted_tx_retention_blocks : ℕ
unexecuted_tx_retention_blocks = 100

-- `TxMappingState`
pub record TxMapping : Type 0 where
  pub mapping : HashMap ℕ
  pub deleted : HashSet
  pub reorg_in_progress : Bool

-- `TxMappingState::default`, what the global instance starts from
abbrev pub default : TxMapping
default = record { mapping = HashMap.empty; deleted = []; reorg_in_progress = false }

-- `TxMapping::new` and `TxMapping::default` return a handle on the global instance, so the state
-- behind the new handle is the state of the global one.
unfoldable pub new : TxMapping → TxMapping
new global = global

unfoldable pub set_mapping : HashMap ℕ → TxMapping → TxMapping
set_mapping m s = record s { mapping = m }

-- the entry is removed, and its number or 0 is returned
unfoldable pub get_tx_number : ℕ → TxMapping → ℕ × TxMapping
get_tx_number h s =
    (unwrap_or (HashMap.get h s.mapping) 0, record s { mapping = HashMap.remove h s.mapping })

unfoldable pub add_deleted_transaction : ℕ → TxMapping → TxMapping
add_deleted_transaction h s = record s { deleted = HashSet.insert h s.deleted }

unfoldable pub is_deleted_transaction : ℕ → TxMapping → Bool
is_deleted_transaction h s = contains h s.deleted

unfoldable pub mark_start_pool_reorg : TxMapping → TxMapping
mark_start_pool_reorg s = record s { reorg_in_progress = true }

unfoldable pub mark_pool_reorged : TxMapping → TxMapping
mark_pool_reorged s = record s { reorg_in_progress = false }

unfoldable pub is_reorg_complete : TxMapping → Bool
is_reorg_complete s = not s.reorg_in_progress

unfoldable pub insert : ℕ → ℕ → TxMapping → TxMapping
insert h n s = record s { mapping = HashMap.insert h n s.mapping }

unfoldable pub is_transaction_expired : ℕ → ℕ → TxMapping → Bool
is_transaction_expired h current s = elim (HashMap.get h s.mapping) [
  | none ↦ false
  | some n ↦ ltb (add_u64 n unexecuted_tx_retention_blocks) current || ltb current n
]

unfoldable pub get_submission_block : ℕ → TxMapping → Option ℕ
get_submission_block h s = HashMap.get h s.mapping

unfoldable pub clear : TxMapping → TxMapping
clear s = record { mapping = HashMap.empty; deleted = []; reorg_in_progress = false }

unfoldable pub len : TxMapping → ℕ
len s = length s.mapping

unfoldable pub is_empty : TxMapping → Bool
is_empty s = length s.mapping == 0
