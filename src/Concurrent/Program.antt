-- ===== src/Concurrent/Program.antt =====
-- What a thread does with the shared mapping of crates/tx_mapping: the calls of its methods, one after
-- the other, where each may depend on the replies to those before. The methods are those that the other
-- crates call.
use kx_reth.Prelude.{ℕ, ◌≡◌, refl, Option}
use kx_reth.TxMapping
use kx_reth.TxMapping.{TxMapping}

pub data Program (A : Type 0) : Type 0 where
  pure : A → Program A
  get_submission_block : ℕ → (Option ℕ → Program A) → Program A
  get_tx_number : ℕ → (ℕ → Program A) → Program A
  insert : ℕ → ℕ → Program A → Program A
  mark_start_pool_reorg mark_pool_reorged : Program A → Program A

infixl 5 ◌>>=◌ ◌>>◌
abbrev pub ◌>>=◌ : {A B : Type 0} → Program A → (A → Program B) → Program B
pure a >>= f = f a
get_submission_block h k >>= f = get_submission_block h λ o. k o >>= f
get_tx_number h k >>= f = get_tx_number h λ n. k n >>= f
insert h n p >>= f = insert h n (p >>= f)
mark_start_pool_reorg p >>= f = mark_start_pool_reorg (p >>= f)
mark_pool_reorged p >>= f = mark_pool_reorged (p >>= f)

abbrev pub ◌>>◌ : {A B : Type 0} → Program A → Program B → Program B
p >> q = p >>= λ _. q

-- the next call of a thread, if it has one left
unfoldable pub advance : {A : Type 0} → Program A → TxMapping → Program A × TxMapping
advance (pure a) m = (pure a, m)
advance (get_submission_block h k) m = (k (TxMapping.get_submission_block h m), m)
advance (get_tx_number h k) m = let (n, m') = TxMapping.get_tx_number h m in (k n, m')
advance (insert h n p) m = (p, TxMapping.insert h n m)
advance (mark_start_pool_reorg p) m = (p, TxMapping.mark_start_pool_reorg m)
advance (mark_pool_reorged p) m = (p, TxMapping.mark_pool_reorged m)

-- all calls of a thread, with no other thread in between
unfoldable pub run_alone : {A : Type 0} → Program A → TxMapping → A × TxMapping
run_alone (pure a) m = (a, m)
run_alone (get_submission_block h k) m = run_alone (k (TxMapping.get_submission_block h m)) m
run_alone (get_tx_number h k) m = let (n, m') = TxMapping.get_tx_number h m in run_alone (k n) m'
run_alone (insert h n p) m = run_alone p (TxMapping.insert h n m)
run_alone (mark_start_pool_reorg p) m = run_alone p (TxMapping.mark_start_pool_reorg m)
run_alone (mark_pool_reorged p) m = run_alone p (TxMapping.mark_pool_reorged m)

pub run_alone-bind :
    {A B : Type 0} (p : Program A) (f : A → Program B) (m : TxMapping)
    → run_alone (p >>= f) m ≡ run_alone (f (run_alone p m).0) (run_alone p m).1
unfolding run_alone
run_alone-bind (pure a) f m = refl
run_alone-bind (get_submission_block h k) f m = run_alone-bind (k _) f m
run_alone-bind (get_tx_number h k) f m = run_alone-bind (k _) f _
run_alone-bind (insert h n p) f m = run_alone-bind p f _
run_alone-bind (mark_start_pool_reorg p) f m = run_alone-bind p f _
run_alone-bind (mark_pool_reorged p) f m = run_alone-bind p f _
