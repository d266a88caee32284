-- ===== src/Concurrent/Leak.antt =====
-- What threads of crates/primitives and crates/rpc can make of the mapping, and calls that are one step
-- each cannot.
use kx_reth.Prelude.{
  ℕ, ◌≡◌, refl, true, none, some, [], ◌∷◌, arith, unwrap_or, contains, ok, ==_self,
}
use kx_reth.TxMapping
use kx_reth.TxMapping.{TxMapping}
use kx_reth.TxMapping.Laws.{get_submission_block-insert}
use kx_reth.Engine.{
  Block, Blocks, v1, block_to_payload, process_kasplex_execution_data, fix_withdrawals_root,
}
use kx_reth.Engine.Numbers.{
  hashes, same_transactions, block_to_payload_lem, processed_numbers_are_gone,
}
use kx_reth.Concurrent.Program.{pure, get_submission_block, get_tx_number, insert, advance}
use kx_reth.Concurrent.Threads.{
  insert_each, read_each, take_each, payload_thread, restore_thread, process_thread,
}
use kx_reth.Concurrent.System.{start, spawn, advance_at, schedule, run_schedule}

module _ (blocks : Blocks) where
  open blocks use {Tx, V1, hash, hash_slow, from_block_unchecked, try_into_block}

  payload_of_one :
      (c : Block Tx) (tx : Tx)
      → c.transactions ≡ tx ∷ []
      → payload_thread blocks c
        ≡ get_submission_block (hash tx) λ o.
          insert (hash tx) (unwrap_or o 0) (pure (v1 (from_block_unchecked (hash_slow c.header) c)))
  unfolding payload_thread read_each insert_each
  payload_of_one c tx one = rw (payload_thread, one) refl

  process_of_one :
      (p : V1) (b : Block Tx) (tx : Tx)
      → try_into_block p ≡ ok b
      → b.transactions ≡ tx ∷ []
      → process_thread blocks (v1 p) none
        ≡ get_tx_number (hash tx) λ n. pure (ok (fix_withdrawals_root blocks b))
  unfolding process_thread restore_thread take_each
  process_of_one p b tx converted one =
      rw (process_thread, converted, same_transactions blocks b, one) refl

  -- A block of one transaction, found under `n`, is made into a payload by one thread, while another
  -- processes a payload with the same transaction. If the first thread reads the number before the
  -- second takes it out, and inserts after that, both end, and the transaction is found under `n` again
  -- although it was processed. With each call as one step it is not found, or under 0, in either order.
  pub processed_number_comes_back :
      (p : V1) (b c : Block Tx) (tx : Tx) (n : ℕ) (m : TxMapping)
      → try_into_block p ≡ ok b
      → b.transactions ≡ tx ∷ []
      → c.transactions ≡ tx ∷ []
      → TxMapping.get_submission_block (hash tx) m ≡ some n
      → let payload = payload_thread blocks c in
        let process = process_thread blocks (v1 p) none in
        let s =
          run_schedule
            (1 ∷ 0 ∷ 1 ∷ [])
            (spawn process (spawn payload (record start { mapping = m }))) in
        (s.threads ≡ pure tt ∷ pure tt ∷ [])
        × (TxMapping.get_submission_block (hash tx) s.mapping ≡ some n)
        × (TxMapping.get_submission_block
              (hash tx)
              (process_kasplex_execution_data blocks (v1 p) none (block_to_payload blocks c m).1).1
            ≡ none)
        × (TxMapping.get_submission_block
              (hash tx)
              (block_to_payload blocks c (process_kasplex_execution_data blocks (v1 p) none m).1).1
            ≡ some 0)
  unfolding run_schedule schedule advance_at advance
  processed_number_comes_back p b c tx n m converted one_b one_c found =
      let h = hash tx in
      let taken = (TxMapping.get_tx_number h m).1 in
      let handed = (block_to_payload blocks c m).1 in
      let processed = (process_kasplex_execution_data blocks (v1 p) none m).1 in
      let in_b : contains h (hashes blocks b) ≡ true = rw one_b (ground (arith, ==_self h)) in
      let in_c : contains h (hashes blocks c) ≡ true = rw one_c (ground (arith, ==_self h)) in
      (
        rw (process_of_one p b tx converted one_b, payload_of_one c tx one_c) refl,
        rw (process_of_one p b tx converted one_b, payload_of_one c tx one_c)
            (ground (
              arith,
              get_submission_block-insert h h (unwrap_or (TxMapping.get_submission_block h m) 0)
                  taken,
              found,
              ==_self h,
            )),
        ground (arith, (processed_numbers_are_gone blocks p none b handed h converted).1, in_b),
        ground (
          arith,
          (block_to_payload_lem blocks c processed h).3,
          (processed_numbers_are_gone blocks p none b m h converted).1,
          in_b,
          in_c,
        ),
      )
