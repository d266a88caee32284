-- ===== src/Engine/Numbers.antt =====
-- The numbers of a block's transactions on their way through the engine API.
use kx_reth.Prelude.{
  ℕ, ◌≡◌, refl, ap, ◌∙◌, false, Option, none, some, List, [], ◌∷◌, map, arith, contains, unwrap_or,
  if◌then◌else◌, ok, err, Result-cases, inl, inr,
}
use kx_reth.TxMapping
use kx_reth.TxMapping.Laws.{get_submission_block-insert, get_submission_block-get_tx_number}
use kx_reth.TxMapping.{TxMapping}
use kx_reth.Engine.{
  Block, Blocks, ExecutionPayload, v1, v2, v3, KasplexExecutionData, insert_all, take_all,
  block_to_payload, fix_withdrawals_root, restore_numbers, process_kasplex_execution_data,
}

abbrev look_up : ℕ → TxMapping → Option ℕ
look_up h m = TxMapping.get_submission_block h m

module _ (blocks : Blocks) where
  open blocks use {Tx, V1, hash, block_hash, block_hash_lem, hash_slow, try_into_block}

  -- The hashes of a block's transactions.
  abbrev pub hashes : Block Tx → List ℕ
  hashes b = map hash b.transactions

  take_all_lem :
      (txs : List Tx) (m : TxMapping) (h : ℕ)
      → look_up h (take_all blocks txs m)
        ≡ (if contains h (map hash txs) then none else look_up h m)
  unfolding take_all
  take_all_lem [] m h = refl
  take_all_lem (tx ∷ txs) m h = ground (
    arith,
    take_all_lem txs (TxMapping.get_tx_number (hash tx) m).1 h,
    get_submission_block-get_tx_number (hash tx) h m,
  )

  insert_all_others :
      (txs : List Tx) (ns : List ℕ) (m : TxMapping) (h : ℕ)
      → contains h (map hash txs) ≡ false
      → look_up h (insert_all blocks txs ns m) ≡ look_up h m
  unfolding insert_all
  insert_all_others [] ns m h out = refl
  insert_all_others (tx ∷ txs) [] m h out = refl
  insert_all_others (tx ∷ txs) (n ∷ ns) m h out = ground (
    arith,
    insert_all_others txs ns (TxMapping.insert (hash tx) n m) h,
    get_submission_block-insert (hash tx) h n m,
  )

  insert_all_own :
      (txs : List Tx) (m0 m : TxMapping) (h : ℕ)
      → look_up h (insert_all blocks txs (map (λ tx. unwrap_or (look_up (hash tx) m0) 0) txs) m)
        ≡ (if contains h (map hash txs) then some (unwrap_or (look_up h m0) 0) else look_up h m)
  unfolding insert_all
  insert_all_own [] m0 m h = refl
  insert_all_own (tx ∷ txs) m0 m h =
      let n = unwrap_or (look_up (hash tx) m0) 0 in
      ground (
        arith,
        insert_all_own txs m0 (TxMapping.insert (hash tx) n m) h,
        get_submission_block-insert (hash tx) h n m,
        ap (λ k. unwrap_or (look_up k m0) 0),
      )

  -- `block_to_payload` puts the hash of the block's header in the payload. Afterwards each of the
  -- block's transactions is found, under the number that it had or 0, and every other look-up is as
  -- before.
  pub block_to_payload_lem :
      (b : Block Tx) (m : TxMapping) (h : ℕ)
      → (p : V1) × ((block_to_payload blocks b m).0 ≡ v1 p)
        × (block_hash p ≡ hash_slow b.header)
        × (TxMapping.get_submission_block h (block_to_payload blocks b m).1 ≡ (
            if contains h (hashes b)
            then some (unwrap_or (TxMapping.get_submission_block h m) 0)
            else TxMapping.get_submission_block h m))
  unfolding block_to_payload
  block_to_payload_lem b m h = (_, refl, block_hash_lem _ b, insert_all_own b.transactions m m h)

  restore_numbers_others :
      (txs : List Tx) (ns : List ℕ) (m : TxMapping) (h : ℕ)
      → contains h (map hash txs) ≡ false
      → look_up h (restore_numbers blocks txs ns m) ≡ look_up h m
  unfolding restore_numbers
  restore_numbers_others txs ns m h out = ground (arith, insert_all_others txs ns m h out)

  pub same_transactions :
      (b : Block Tx) → (fix_withdrawals_root blocks b).transactions ≡ b.transactions
  unfolding fix_withdrawals_root
  same_transactions b = ground arith

  take_all_fixed :
      (b : Block Tx) (m : TxMapping) (h : ℕ)
      → look_up h (take_all blocks (fix_withdrawals_root blocks b).transactions m)
        ≡ (if contains h (hashes b) then none else look_up h m)
  take_all_fixed b m h =
      take_all_lem (fix_withdrawals_root blocks b).transactions m h
      ∙ ap (λ ts. if contains h (map hash ts) then none else look_up h m) (same_transactions b)

  -- A payload that converts to a block is processed, with a sidecar or without one, to that block with
  -- a withdrawals root. Afterwards no transaction of the block is found, and every other look-up is as
  -- before: the numbers of the sidecar do not outlive the call.
  pub processed_numbers_are_gone :
      (p : V1) (extra : Option (KasplexExecutionData V1)) (b : Block Tx) (m : TxMapping) (h : ℕ)
      → try_into_block p ≡ ok b
      → ((process_kasplex_execution_data blocks (v1 p) extra m).0
          ≡ ok (fix_withdrawals_root blocks b))
        × (TxMapping.get_submission_block h (process_kasplex_execution_data blocks (v1 p) extra m).1
            ≡ (if contains h (hashes b) then none else TxMapping.get_submission_block h m))
  unfolding process_kasplex_execution_data
  processed_numbers_are_gone p none b m h q =
      (ground (arith, q), rw (q, process_kasplex_execution_data) (take_all_fixed b m h))
  processed_numbers_are_gone p (some d) b m h q =
      let txs = (fix_withdrawals_root blocks b).transactions in
      let ns = d.kasplex_sidecar.numbers in
      (
        ground (arith, q),
        rw (q, process_kasplex_execution_data)
            (ground (
              arith,
              take_all_fixed b (restore_numbers blocks txs ns m) h,
              restore_numbers_others txs ns m h,
              ap (λ ts. contains h (map hash ts)) (same_transactions b),
            )),
      )

  -- A payload that is not V1, or does not convert, is refused, and the mapping is as before.
  pub unprocessed_keeps_numbers :
      (p : ExecutionPayload V1) (extra : Option (KasplexExecutionData V1)) (m : TxMapping)
      (e : blocks.Error)
      → (process_kasplex_execution_data blocks p extra m).0 ≡ err e
      → (process_kasplex_execution_data blocks p extra m).1 ≡ m
  unfolding process_kasplex_execution_data
  unprocessed_keeps_numbers v2 extra m e h = refl
  unprocessed_keeps_numbers v3 extra m e h = refl
  unprocessed_keeps_numbers (v1 p) extra m e h = elim (Result-cases (try_into_block p)) [
    | inl (b, q) ↦ ground (arith, q)
    | inr (f, q) ↦ ground (arith, q)
  ]
