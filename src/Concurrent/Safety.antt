-- ===== src/Concurrent/Safety.antt =====
-- Threads that insert only numbers which belong to their transactions, if all replies of the mapping
-- do: the calls of crates/rpc, crates/payload, crates/primitives and crates/txpool.
pub mod Builds
use kx_reth.Prelude.{
  ℕ, suc, ◌≡◌, refl, sym, ap, ◌∙◌, Bool, true, false, Option, none, some, List, [], ◌∷◌, ◌++◌, map,
  arith, not, ◌&&◌, ◌||◌, ◌==◌, length, get_elem?, drop_last, ltb, unwrap_or, if◌then◌else◌, ok,
  err, ==_self, Bool-cases, Option-cases, Result-cases, inl, inr,
}
use kx_reth.Prelude.Word.{add_u64, to_u64}
use kx_reth.TxMapping
use kx_reth.TxMapping.{TxMapping}
use kx_reth.TxMapping.Laws.{
  get_submission_block-insert, get_submission_block-get_tx_number, get_tx_number_value,
}
use kx_reth.TxPool.{Pool}
use kx_reth.Engine.{
  Block, Blocks, ExecutionPayload, v1, v2, v3, KasplexExecutionData, fix_withdrawals_root,
}
use kx_reth.Auth.{SendNode, min_l2_base_fee}
use kx_reth.Concurrent.Program.{
  Program, pure, get_submission_block, get_tx_number, insert, mark_start_pool_reorg,
  mark_pool_reorged, ◌>>=◌, advance,
}
use kx_reth.Concurrent.Threads.{
  insert_each, read_each, take_each, payload_thread, restore_thread, process_thread, collect_each,
  reorg_thread, set_number_thread, send_thread,
}
use kx_reth.Shared.{number_given}
use kx_reth.Shared.Calls.{was_given}
use kx_reth.Concurrent.System.{pair_up, sidecar_numbers}

-- The numbers that belong to a hash; 0 belongs to every one.
module _ (Belongs : ℕ → ℕ → Type 0) (zero_belongs : (h : ℕ) → Belongs h 0) where
  abbrev pub Found : ℕ → Option ℕ → Type 0
  Found h none = Unit
  Found h (some n) = Belongs h n

  -- Whatever replies that belong the thread gets, it inserts what belongs, and returns a result as `Q`
  -- says.
  abbrev pub Safe : {A : Type 0} → (A → Type 0) → Program A → Type 0
  Safe Q (pure a) = Q a
  Safe Q (get_submission_block h k) = (o : Option ℕ) → Found h o → Safe Q (k o)
  Safe Q (get_tx_number h k) = (n : ℕ) → Belongs h n → Safe Q (k n)
  Safe Q (insert h n p) = Belongs h n × Safe Q p
  Safe Q (mark_start_pool_reorg p) = Safe Q p
  Safe Q (mark_pool_reorged p) = Safe Q p

  pub bind-Safe :
      {A B : Type 0} (Q : A → Type 0) (R : B → Type 0) (p : Program A) (f : A → Program B)
      → Safe Q p
      → ((a : A) → Q a → Safe R (f a))
      → Safe R (p >>= f)
  bind-Safe Q R (pure a) f safe next = next a safe
  bind-Safe Q R (get_submission_block h k) f safe next =
      λ o found. bind-Safe Q R (k o) f (safe o found) next
  bind-Safe Q R (get_tx_number h k) f safe next = λ n b. bind-Safe Q R (k n) f (safe n b) next
  bind-Safe Q R (insert h n p) f safe next = (safe.0, bind-Safe Q R p f safe.1 next)
  bind-Safe Q R (mark_start_pool_reorg p) f safe next = bind-Safe Q R p f safe next
  bind-Safe Q R (mark_pool_reorged p) f safe next = bind-Safe Q R p f safe next

  abbrev pub Table : TxMapping → Type 0
  Table m = (h : ℕ) → Found h (TxMapping.get_submission_block h m)

  insert-Table : (h n : ℕ) (m : TxMapping) → Belongs h n → Table m → Table (TxMapping.insert h n m)
  insert-Table h n m b table k = elim (Bool-cases (h == k)) [
    | inl q ↦
        let same : h ≡ k = ground (arith, q) in
        rw (get_submission_block-insert h k n m, q) (rw same at b)
    | inr q ↦ rw (get_submission_block-insert h k n m, q) (table k)
  ]

  pub unwrap_or-Found : (h : ℕ) (o : Option ℕ) → Found h o → Belongs h (unwrap_or o 0)
  unwrap_or-Found h none found = zero_belongs h
  unwrap_or-Found h (some n) found = found

  take-Table : (h : ℕ) (m : TxMapping) → Table m → Table (TxMapping.get_tx_number h m).1
  take-Table h m table k = elim (Bool-cases (h == k)) [
    | inl q ↦ rw (get_submission_block-get_tx_number h k m, q) tt
    | inr q ↦ rw (get_submission_block-get_tx_number h k m, q) (table k)
  ]

  marked_lem : (m : TxMapping) → Table m → Table (TxMapping.mark_start_pool_reorg m)
  unfolding TxMapping.mark_start_pool_reorg TxMapping.get_submission_block
  marked_lem m table = table

  reorged_lem : (m : TxMapping) → Table m → Table (TxMapping.mark_pool_reorged m)
  unfolding TxMapping.mark_pool_reorged TxMapping.get_submission_block
  reorged_lem m table = table

  -- A call of a safe thread leaves a table with numbers that belong, and a safe thread.
  pub advance-Safe :
      {A : Type 0} (Q : A → Type 0) (p : Program A) (m : TxMapping)
      → Safe Q p
      → Table m
      → Safe Q (advance p m).0 × Table (advance p m).1
  unfolding advance
  advance-Safe Q (pure a) m safe table = (safe, table)
  advance-Safe Q (get_submission_block h k) m safe table = (safe _ (table h), table)
  advance-Safe Q (get_tx_number h k) m safe table =
      let n = (TxMapping.get_tx_number h m).0 in
      let b : Belongs h n = rw (get_tx_number_value h m) (unwrap_or-Found h _ (table h)) in
      (safe n b, take-Table h m table)
  advance-Safe Q (insert h n p) m safe table = (safe.1, insert-Table h n m safe.0 table)
  advance-Safe Q (mark_start_pool_reorg p) m safe table = (safe, marked_lem m table)
  advance-Safe Q (mark_pool_reorged p) m safe table = (safe, reorged_lem m table)

  module _ (blocks : Blocks) where
    open blocks use {Tx, hash, try_into_block}

    -- each transaction of a block with its number
    abbrev pub Pairs : List Tx → List ℕ → Type 0
    Pairs [] ns = Unit
    Pairs (tx ∷ txs) [] = Unit
    Pairs (tx ∷ txs) (n ∷ ns) = Belongs (hash tx) n × Pairs txs ns

    abbrev Any : {A : Type 0} → A → Type 0
    Any a = Unit

    insert_each-Safe :
        (txs : List Tx) (ns : List ℕ) → Pairs txs ns → Safe Any (insert_each blocks txs ns)
    unfolding insert_each
    insert_each-Safe [] ns pairs = tt
    insert_each-Safe (tx ∷ txs) [] pairs = tt
    insert_each-Safe (tx ∷ txs) (n ∷ ns) pairs = (pairs.0, insert_each-Safe txs ns pairs.1)

    read_each-Safe : (txs : List Tx) → Safe (Pairs txs) (read_each blocks txs)
    unfolding read_each
    read_each-Safe [] = tt
    read_each-Safe (tx ∷ txs) = λ o found.
        bind-Safe (Pairs txs) (Pairs (tx ∷ txs)) (read_each blocks txs) _ (read_each-Safe txs)
          (λ ns pairs. (unwrap_or-Found (hash tx) o found, pairs))

    take_each-Safe : (txs : List Tx) → Safe Any (take_each blocks txs)
    unfolding take_each
    take_each-Safe [] = tt
    take_each-Safe (tx ∷ txs) = λ n b. take_each-Safe txs

    pub payload_thread-Safe : (b : Block Tx) → Safe Any (payload_thread blocks b)
    unfolding payload_thread
    payload_thread-Safe b =
        bind-Safe (Pairs b.transactions) Any (read_each blocks b.transactions) _
          (read_each-Safe b.transactions)
          (λ ns pairs.
            bind-Safe Any Any (insert_each blocks b.transactions ns) _
              (insert_each-Safe b.transactions ns pairs) (λ u any. tt))

    pair_up-Pairs :
        (txs : List Tx) (ns : List ℕ)
        → ((h n : ℕ) → was_given h n (pair_up blocks txs ns) ≡ true → Belongs h n)
        → Pairs txs ns
    pair_up-Pairs [] ns belong = tt
    pair_up-Pairs (tx ∷ txs) [] belong = tt
    pair_up-Pairs (tx ∷ txs) (n ∷ ns) belong = (
      belong (hash tx) n (ground (arith, ==_self (hash tx), ==_self n)),
      pair_up-Pairs txs ns (λ k i given. belong k i (ground (arith, given))),
    )

    restore_thread-Safe :
        (txs : List Tx) (extra : Option (KasplexExecutionData blocks.V1))
        → ((d : KasplexExecutionData blocks.V1)
            → extra ≡ some d
            → Pairs txs d.kasplex_sidecar.numbers)
        → Safe Any (restore_thread blocks txs extra)
    unfolding restore_thread
    restore_thread-Safe txs none pairs = tt
    restore_thread-Safe txs (some d) pairs =
        let ns = d.kasplex_sidecar.numbers in
        elim (Bool-cases (not (length ns == 0) && (length ns == length txs))) [
          | inl q ↦ rw (restore_thread, q) (insert_each-Safe txs ns (pairs d refl))
          | inr q ↦ rw (restore_thread, q) tt
        ]

    pub process_thread-Safe :
        (p : ExecutionPayload blocks.V1) (extra : Option (KasplexExecutionData blocks.V1))
        → ((h n : ℕ) → was_given h n (sidecar_numbers blocks p extra) ≡ true → Belongs h n)
        → Safe Any (process_thread blocks p extra)
    unfolding process_thread sidecar_numbers
    process_thread-Safe v2 extra belong = tt
    process_thread-Safe v3 extra belong = tt
    process_thread-Safe (v1 p) extra belong = elim (Result-cases (try_into_block p)) [
      | inr (e, q) ↦ rw (process_thread, q) tt
      | inl (b, q) ↦
          let txs = (fix_withdrawals_root blocks b).transactions in
          let pairs = λ (d : KasplexExecutionData blocks.V1) (e : extra ≡ some d).
            pair_up-Pairs txs d.kasplex_sidecar.numbers
              (λ h n given. belong h n (ground (arith, e, q, given))) in
          rw (process_thread, q)
            (bind-Safe Any Any (restore_thread blocks txs extra) _
              (restore_thread-Safe txs extra pairs)
              (λ u any.
                bind-Safe Any Any (take_each blocks txs) _ (take_each-Safe txs) (λ v all. tt)))
    ]

  pub collect_each-Safe :
      (new_head : ℕ) (hs acc : List ℕ)
      → Safe (λ (removed : List ℕ). Unit {0}) (collect_each new_head hs acc)
  unfolding collect_each
  collect_each-Safe new_head [] acc = tt
  collect_each-Safe new_head (h ∷ hs) acc = λ o found. collect_each-Safe new_head hs _

  pub reorg_thread-Safe :
      (pool : Pool) (is_kasplex : Bool) (new_head : ℕ) (s : pool.State)
      → Safe (λ (removed : List ℕ). Unit {0}) (reorg_thread pool is_kasplex new_head s)
  unfolding reorg_thread
  reorg_thread-Safe pool false new_head s = tt
  reorg_thread-Safe pool true new_head s =
      bind-Safe _ _ (collect_each new_head (pool.pending s) []) _
        (collect_each-Safe new_head (pool.pending s) [])
        (λ from_pending u.
          bind-Safe _ _ (collect_each new_head (pool.queued s) from_pending) _
            (collect_each-Safe new_head (pool.queued s) from_pending) (λ removed v. tt))

  pub send_thread-Safe :
      (node : SendNode) (raw : List ℕ) (st : node.State)
      → ((h n : ℕ) → was_given h n (number_given node raw st) ≡ true → Belongs h n)
      → Safe (λ (u : Unit {0}). Unit {0}) (send_thread node raw st)
  unfolding send_thread set_number_thread
  send_thread-Safe node raw st belong = elim (Bool-cases (length raw == 0)) [
    | inl q ↦ rw (send_thread, q) tt
    | inr q ↦ elim (Option-cases (node.recover_raw_transaction raw)) [
      | inl r ↦ rw (send_thread, q, r) tt
      | inr (tx, r) ↦ elim (Bool-cases (ltb (node.max_fee_per_gas tx) min_l2_base_fee)) [
        | inl low ↦ rw (send_thread, q, r, low) tt
        | inr high ↦ elim (Option-cases (node.latest_header st)) [
          | inl l ↦ rw (send_thread, q, r, high, set_number_thread, l) tt
          | inr (number, l) ↦
              let h = node.hash tx in
              let n = add_u64 number 1 in
              rw (send_thread, q, r, high, set_number_thread, l)
                (belong h n (ground (arith, q, r, high, l, ==_self h, ==_self n)), tt)
        ]
      ]
    ]
  ]
