-- ===== src/TxMapping/Laws.antt =====
-- crates/tx_mapping/src/lib.rs: the invariant of the table, and what taking a number does to it.
use kx_reth.Prelude.{
  ℕ, ◌+◌, ◌≡◌, refl, none, some, List, [], ◌∷◌, arith, ◌==◌, unwrap_or, is_some, if◌then◌else◌, inl,
  inr, Option-cases,
}
use kx_reth.Prelude.HashMap
use kx_reth.Prelude.HashMap.{
  IsDistinct, get-insert, get-remove, insert-IsDistinct, remove-IsDistinct, length-remove_present,
  length-remove_absent,
}
use kx_reth.TxMapping.{
  TxMapping, set_mapping, get_tx_number, add_deleted_transaction, mark_start_pool_reorg,
  mark_pool_reorged, insert, get_submission_block, clear, len,
}
use kx_reth.TxMapping.Calls.{Op, step, run}

-- The table lists no hash twice, so that `len` counts the mapped transactions.
abbrev pub IsValid : TxMapping → Type 0
IsValid s = IsDistinct s.mapping

-- a table that a caller hands over as a whole is a `HashMap` itself
abbrev pub WellFormed : Op → Type 0
WellFormed (Op.set_mapping m) = IsDistinct m
WellFormed _ = Unit

abbrev pub AllWellFormed : List Op → Type 0
AllWellFormed [] = Unit
AllWellFormed (op ∷ ops) = WellFormed op × AllWellFormed ops

step-IsValid : (op : Op) (s : TxMapping) → WellFormed op → IsValid s → IsValid (step op s).1
unfolding step set_mapping get_tx_number add_deleted_transaction mark_start_pool_reorg
    mark_pool_reorged insert clear
step-IsValid (Op.set_mapping m) s w h = w
step-IsValid (Op.get_tx_number k) s w h = remove-IsDistinct k s.mapping h
step-IsValid (Op.insert k n) s w h = insert-IsDistinct k n s.mapping h
step-IsValid Op.clear s w h = tt
step-IsValid _ s w h = h

-- Every schedule of calls whose tables list no hash twice keeps the table free of repeated hashes.
pub run-IsValid :
    (ops : List Op) (s : TxMapping) → AllWellFormed ops → IsValid s → IsValid (run ops s).1
unfolding run
run-IsValid [] s w h = h
run-IsValid (op ∷ ops) s w h = run-IsValid ops (step op s).1 w.1 (step-IsValid op s w.0 h)

pub get_submission_block-insert :
    (h k n : ℕ) (s : TxMapping)
    → get_submission_block k (insert h n s) ≡ (if h == k then some n else get_submission_block k s)
unfolding get_submission_block insert
get_submission_block-insert h k n s = get-insert h k n s.mapping

pub get_submission_block-get_tx_number :
    (h k : ℕ) (s : TxMapping)
    → get_submission_block k (get_tx_number h s).1
      ≡ (if h == k then none else get_submission_block k s)
unfolding get_submission_block get_tx_number
get_submission_block-get_tx_number h k s = get-remove h k s.mapping

pub get_tx_number_value :
    (h : ℕ) (s : TxMapping) → (get_tx_number h s).0 ≡ unwrap_or (get_submission_block h s) 0
unfolding get_submission_block get_tx_number
get_tx_number_value h s = refl

-- In a table that lists no hash twice, taking a number lowers `len` by one if the hash is mapped,
-- and leaves `len` alone if it is not.
pub len-get_tx_number :
    (h : ℕ) (s : TxMapping)
    → IsValid s
    → (len (get_tx_number h s).1 + (if is_some (get_submission_block h s) then 1 else 0)) ≡ len s
unfolding len get_submission_block get_tx_number
len-get_tx_number h s v = elim (Option-cases (HashMap.get h s.mapping)) [
  | inl absent ↦ ground (arith, absent, length-remove_absent h s.mapping absent)
  | inr (n, present) ↦ ground (arith, present, length-remove_present h n s.mapping v present)
]
