-- ===== src/TxPool/Memory.antt =====
-- A pool that meets the laws of `Pool`: two lists of hashes, from which removal filters.
use kx_reth.Prelude.{
  ℕ, ◌≡◌, not, ◌&&◌, ◌||◌, List, ◌++◌, arith, contains, contains-keep_if, keep_if,
}
use kx_reth.TxPool.{Pool}

pub record Lists : Type 0 where
  pub pending : List ℕ
  pub queued : List ℕ

abbrev pub without : List ℕ → List ℕ → List ℕ
without hs = keep_if (λ h. not (contains h hs))

abbrev pub take_out : List ℕ → Lists → List ℕ × Lists
take_out hs s = (
  keep_if (λ h. contains h hs) (s.pending ++ s.queued),
  record { pending = without hs s.pending; queued = without hs s.queued },
)

pub take_out_lem :
    (hs : List ℕ) (s : Lists) (h : ℕ)
    → (contains h (take_out hs s).1.pending || contains h (take_out hs s).1.queued)
      ≡ ((contains h s.pending || contains h s.queued) && not (contains h hs))
take_out_lem hs s h = ground (
  arith,
  contains-keep_if (λ k. not (contains k hs)) h s.pending,
  contains-keep_if (λ k. not (contains k hs)) h s.queued,
)

abbrev pub memory_pool : Pool
memory_pool = record {
  State = Lists;
  pending = λ s. s.pending;
  queued = λ s. s.queued;
  remove_transactions = take_out;
  remove_lem = take_out_lem;
}
