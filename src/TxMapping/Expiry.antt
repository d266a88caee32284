-- ===== src/TxMapping/Expiry.antt =====
-- crates/tx_mapping/src/lib.rs, `is_transaction_expired`: which submissions are expired.
use kx_reth.Prelude.{ℕ, ◌+◌, ◌<◌, ◌≡◌, ◌↔◌, ◌⊎◌, true, false, none, some, arith}
use kx_reth.Prelude.HashMap.{get-insert}
use kx_reth.Prelude.Word.{u64_mod}
use kx_reth.TxMapping.{TxMapping, insert, is_transaction_expired, get_submission_block}

-- A transaction that is mapped to block `n`, with `n + 100` in a u64, is expired at block `current`
-- exactly when more than 100 blocks have passed since `n`, or `n` lies after `current`.
pub is_transaction_expired_iff :
    (h current n : ℕ) (s : TxMapping)
    → get_submission_block h s ≡ some n
    → n + 100 < u64_mod
    → (is_transaction_expired h current s ≡ true) ↔ ((n + 100 < current) ⊎ (current < n))
unfolding is_transaction_expired get_submission_block
is_transaction_expired_iff h current n s e fits = ground arith

-- A transaction with no submission block is never expired.
pub unmapped_not_expired :
    (h current : ℕ) (s : TxMapping)
    → get_submission_block h s ≡ none
    → is_transaction_expired h current s ≡ false
unfolding is_transaction_expired get_submission_block
unmapped_not_expired h current s e = ground arith

-- A transaction just inserted at block `n`, with `n + 100` in a u64, is not yet expired at block
-- `n + 100`, and is expired at block `n + 101`.
pub retention_boundary :
    (h n : ℕ) (s : TxMapping)
    → n + 100 < u64_mod
    → (is_transaction_expired h (n + 100) (insert h n s) ≡ false)
      × (is_transaction_expired h (n + 101) (insert h n s) ≡ true)
unfolding is_transaction_expired insert
retention_boundary h n s fits =
    (ground (arith, get-insert h h n s.mapping), ground (arith, get-insert h h n s.mapping))
