-- ===== src/Concurrent/Marks.antt =====
-- Which threads of crates/rpc, crates/payload, crates/primitives and crates/txpool mark the start of a
-- reorganisation of the pool, and which have an end to mark.
pub mod Builds
use kx_reth.Prelude.{
  ℕ, suc, ◌≡◌, refl, Bool, true, false, not, ◌&&◌, ◌==◌, Option, none, some, List, [], ◌∷◌, ltb,
  length, get_elem?, unwrap_or, ok, err, Bool-cases, Option-cases, Result-cases, inl, inr,
}
use kx_reth.TxPool.{Pool}
use kx_reth.Engine.{Block, Blocks, ExecutionPayload, v1, v2, v3, KasplexExecutionData}
use kx_reth.Auth.{SendNode, min_l2_base_fee}
use kx_reth.Concurrent.Program.{
  Program, pure, get_submission_block, get_tx_number, insert, mark_start_pool_reorg,
  mark_pool_reorged, ◌>>=◌,
}
use kx_reth.Concurrent.Threads.{
  insert_each, read_each, take_each, payload_thread, restore_thread, process_thread, collect_each,
  reorg_thread, set_number_thread, send_thread,
}

-- Whatever the replies, the thread still marks the end of a reorganisation.
abbrev pub Clears : {A : Type 0} → Program A → Type 0
Clears (pure a) = ⊥
Clears (get_submission_block h k) = (o : Option ℕ) → Clears (k o)
Clears (get_tx_number h k) = (n : ℕ) → Clears (k n)
Clears (insert h n p) = Clears p
Clears (mark_start_pool_reorg p) = Clears p
Clears (mark_pool_reorged p) = Unit

-- Whatever the replies, the thread marks an end after each start.
abbrev pub Paired : {A : Type 0} → Program A → Type 0
Paired (pure a) = Unit
Paired (get_submission_block h k) = (o : Option ℕ) → Paired (k o)
Paired (get_tx_number h k) = (n : ℕ) → Paired (k n)
Paired (insert h n p) = Paired p
Paired (mark_start_pool_reorg p) = Clears p × Paired p
Paired (mark_pool_reorged p) = Paired p

pub bind-Clears : {A B : Type 0} (p : Program A) (f : A → Program B) → Clears p → Clears (p >>= f)
bind-Clears (pure a) f clears = absurd clears
bind-Clears (get_submission_block h k) f clears = λ o. bind-Clears (k o) f (clears o)
bind-Clears (get_tx_number h k) f clears = λ n. bind-Clears (k n) f (clears n)
bind-Clears (insert h n p) f clears = bind-Clears p f clears
bind-Clears (mark_start_pool_reorg p) f clears = bind-Clears p f clears
bind-Clears (mark_pool_reorged p) f clears = tt

bind-Clears_after :
    {A B : Type 0} (p : Program A) (f : A → Program B) → ((a : A) → Clears (f a)) → Clears (p >>= f)
bind-Clears_after (pure a) f clears = clears a
bind-Clears_after (get_submission_block h k) f clears = λ o. bind-Clears_after (k o) f clears
bind-Clears_after (get_tx_number h k) f clears = λ n. bind-Clears_after (k n) f clears
bind-Clears_after (insert h n p) f clears = bind-Clears_after p f clears
bind-Clears_after (mark_start_pool_reorg p) f clears = bind-Clears_after p f clears
bind-Clears_after (mark_pool_reorged p) f clears = tt

pub bind-Paired :
    {A B : Type 0} (p : Program A) (f : A → Program B)
    → Paired p
    → ((a : A) → Paired (f a))
    → Paired (p >>= f)
bind-Paired (pure a) f paired next = next a
bind-Paired (get_submission_block h k) f paired next = λ o. bind-Paired (k o) f (paired o) next
bind-Paired (get_tx_number h k) f paired next = λ n. bind-Paired (k n) f (paired n) next
bind-Paired (insert h n p) f paired next = bind-Paired p f paired next
bind-Paired (mark_start_pool_reorg p) f paired next =
    (bind-Clears p f paired.0, bind-Paired p f paired.1 next)
bind-Paired (mark_pool_reorged p) f paired next = bind-Paired p f paired next

module _ (blocks : Blocks) where
  open blocks use {Tx, try_into_block}

  insert_each-Paired : (txs : List Tx) (ns : List ℕ) → Paired (insert_each blocks txs ns)
  unfolding insert_each
  insert_each-Paired [] ns = tt
  insert_each-Paired (tx ∷ txs) [] = tt
  insert_each-Paired (tx ∷ txs) (n ∷ ns) = insert_each-Paired txs ns

  read_each-Paired : (txs : List Tx) → Paired (read_each blocks txs)
  unfolding read_each
  read_each-Paired [] = tt
  read_each-Paired (tx ∷ txs) =
      λ o. bind-Paired (read_each blocks txs) _ (read_each-Paired txs) (λ ns. tt)

  take_each-Paired : (txs : List Tx) → Paired (take_each blocks txs)
  unfolding take_each
  take_each-Paired [] = tt
  take_each-Paired (tx ∷ txs) = λ n. take_each-Paired txs

  pub payload_thread-Paired : (b : Block Tx) → Paired (payload_thread blocks b)
  unfolding payload_thread
  payload_thread-Paired b =
      bind-Paired (read_each blocks b.transactions) _ (read_each-Paired b.transactions) (λ ns.
        bind-Paired (insert_each blocks b.transactions ns) _ (insert_each-Paired b.transactions ns)
          (λ u. tt))

  restore_thread-Paired :
      (txs : List Tx) (extra : Option (KasplexExecutionData blocks.V1))
      → Paired (restore_thread blocks txs extra)
  unfolding restore_thread
  restore_thread-Paired txs none = tt
  restore_thread-Paired txs (some d) =
      let ns = d.kasplex_sidecar.numbers in
      elim (Bool-cases (not (length ns == 0) && (length ns == length txs))) [
        | inl q ↦ rw (restore_thread, q) (insert_each-Paired txs ns)
        | inr q ↦ rw (restore_thread, q) tt
      ]

  pub process_thread-Paired :
      (p : ExecutionPayload blocks.V1) (extra : Option (KasplexExecutionData blocks.V1))
      → Paired (process_thread blocks p extra)
  unfolding process_thread
  process_thread-Paired v2 extra = tt
  process_thread-Paired v3 extra = tt
  process_thread-Paired (v1 p) extra = elim (Result-cases (try_into_block p)) [
    | inr (e, q) ↦ rw (process_thread, q) tt
    | inl (b, q) ↦
        rw (process_thread, q)
          (bind-Paired (restore_thread blocks _ extra) _ (restore_thread-Paired _ extra)
            (λ u. bind-Paired (take_each blocks _) _ (take_each-Paired _) (λ v. tt)))
  ]

collect_each-Paired : (new_head : ℕ) (hs acc : List ℕ) → Paired (collect_each new_head hs acc)
unfolding collect_each
collect_each-Paired new_head [] acc = tt
collect_each-Paired new_head (h ∷ hs) acc = λ o. collect_each-Paired new_head hs _

-- what a clean-up of the pool does after it has marked its start
unfoldable pub rest_of_reorg : (pool : Pool) → ℕ → pool.State → Program (List ℕ)
rest_of_reorg pool new_head s = collect_each new_head (pool.pending s) [] >>= λ from_pending.
    collect_each new_head (pool.queued s) from_pending >>= λ removed.
    mark_pool_reorged (pure removed)

pub rest_of_reorg-Clears :
    (pool : Pool) (new_head : ℕ) (s : pool.State) → Clears (rest_of_reorg pool new_head s)
unfolding rest_of_reorg
rest_of_reorg-Clears pool new_head s =
    bind-Clears_after (collect_each new_head (pool.pending s) []) _ (λ from_pending.
      bind-Clears_after (collect_each new_head (pool.queued s) from_pending) _ (λ removed. tt))

pub reorg_thread-Paired :
    (pool : Pool) (is_kasplex : Bool) (new_head : ℕ) (s : pool.State)
    → Paired (reorg_thread pool is_kasplex new_head s)
unfolding reorg_thread rest_of_reorg
reorg_thread-Paired pool false new_head s = tt
reorg_thread-Paired pool true new_head s = (
  rest_of_reorg-Clears pool new_head s,
  bind-Paired (collect_each new_head (pool.pending s) []) _ (collect_each-Paired new_head _ [])
      (λ from_pending.
        bind-Paired (collect_each new_head (pool.queued s) from_pending) _
          (collect_each-Paired new_head _ from_pending) (λ removed. tt)),
)

pub send_thread-Paired :
    (node : SendNode) (raw : List ℕ) (st : node.State) → Paired (send_thread node raw st)
unfolding send_thread set_number_thread
send_thread-Paired node raw st = elim (Bool-cases (length raw == 0)) [
  | inl q ↦ rw (send_thread, q) tt
  | inr q ↦ elim (Option-cases (node.recover_raw_transaction raw)) [
    | inl r ↦ rw (send_thread, q, r) tt
    | inr (tx, r) ↦ elim (Bool-cases (ltb (node.max_fee_per_gas tx) min_l2_base_fee)) [
      | inl low ↦ rw (send_thread, q, r, low) tt
      | inr high ↦ elim (Option-cases (node.latest_header st)) [
        | inl l ↦ rw (send_thread, q, r, high, set_number_thread, l) tt
        | inr (number, l) ↦ rw (send_thread, q, r, high, set_number_thread, l) tt
      ]
    ]
  ]
]
