-- ===== src/Shared/Idle.antt =====
-- What no call of crates/rpc, crates/payload, crates/primitives or crates/txpool changes in the shared
-- mapping for long: the set of deleted transactions and the mark of a reorganisation of the pool.
use kx_reth.Prelude.{
  ℕ, suc, ◌≡◌, refl, Bool, true, false, ◌==◌, Option, none, some, List, [], ◌∷◌, arith, ltb, length,
  get_elem?, Bool-cases, Option-cases, Result-cases, inl, inr,
}
use kx_reth.Prelude.Word.{to_u64}
use kx_reth.TxMapping
use kx_reth.TxMapping.{TxMapping, default}
use kx_reth.TxPool.{Pool, handle_kasplex_pool_reorg}
use kx_reth.Block.{SealedHeader}
use kx_reth.Block.Config.{Cells, InnerConfig}
use kx_reth.Attributes.{Codec, BuilderAttributes}
use kx_reth.Payload.{
  Builder, LoopExit, done, cancelled, panicked, fatal, store_numbers, finish_payload, open_block,
  kasplex_payload,
}
use kx_reth.Engine.{
  Block, Blocks, ExecutionPayload, v1, v2, v3, KasplexExecutionData, insert_all, take_all,
  restore_numbers, block_to_payload, process_kasplex_execution_data,
}
use kx_reth.Engine.Validator.{ensure_well_formed_payload}
use kx_reth.Auth.{SendNode, min_l2_base_fee, set_transaction_number, send_raw_transaction}
use kx_reth.Auth.Send.{submit-mapping}
use kx_reth.Shared.Calls.{same_mapping}

-- No transaction is marked as deleted, and no reorganisation is in progress.
abbrev pub IsIdle : TxMapping → Type 0
IsIdle m = (m.deleted ≡ []) × (m.reorg_in_progress ≡ false)

insert-IsIdle : (h n : ℕ) (m : TxMapping) → IsIdle m → IsIdle (TxMapping.insert h n m)
unfolding TxMapping.insert
insert-IsIdle h n m idle = idle

module _ (blocks : Blocks) where
  open blocks use {Tx, hash}

  insert_all-IsIdle :
      (txs : List Tx) (ns : List ℕ) (m : TxMapping) → IsIdle m → IsIdle (insert_all blocks txs ns m)
  unfolding insert_all
  insert_all-IsIdle [] ns m idle = idle
  insert_all-IsIdle (tx ∷ txs) [] m idle = idle
  insert_all-IsIdle (tx ∷ txs) (n ∷ ns) m idle =
      insert_all-IsIdle txs ns _ (insert-IsIdle (hash tx) n m idle)

  take_all-IsIdle : (txs : List Tx) (m : TxMapping) → IsIdle m → IsIdle (take_all blocks txs m)
  unfolding take_all TxMapping.get_tx_number
  take_all-IsIdle [] m idle = idle
  take_all-IsIdle (tx ∷ txs) m idle = take_all-IsIdle txs _ idle

  pub block_to_payload-IsIdle :
      (b : Block Tx) (m : TxMapping) → IsIdle m → IsIdle (block_to_payload blocks b m).1
  unfolding block_to_payload
  block_to_payload-IsIdle b m idle = insert_all-IsIdle b.transactions _ m idle

  restore_numbers-IsIdle :
      (txs : List Tx) (ns : List ℕ) (m : TxMapping)
      → IsIdle m
      → IsIdle (restore_numbers blocks txs ns m)
  unfolding restore_numbers
  restore_numbers-IsIdle txs ns m idle =
      let inserted = insert_all-IsIdle txs ns m idle in
      (ground (arith, idle, inserted), ground (arith, idle, inserted))

  -- the mapping after the sidecar of a payload was read
  sidecar-IsIdle :
      (txs : List Tx) (extra : Option (KasplexExecutionData blocks.V1)) (m : TxMapping)
      → IsIdle m
      → IsIdle (elim extra [
        | none ↦ m
        | some d ↦ restore_numbers blocks txs d.kasplex_sidecar.numbers m
      ])
  sidecar-IsIdle txs none m idle = idle
  sidecar-IsIdle txs (some d) m idle = restore_numbers-IsIdle txs d.kasplex_sidecar.numbers m idle

  pub processes-IsIdle :
      (p : ExecutionPayload blocks.V1) (extra : Option (KasplexExecutionData blocks.V1))
      (m : TxMapping)
      → IsIdle m
      → IsIdle (process_kasplex_execution_data blocks p extra m).1
  unfolding process_kasplex_execution_data
  processes-IsIdle v2 extra m idle = idle
  processes-IsIdle v3 extra m idle = idle
  processes-IsIdle (v1 p) extra m idle = elim (Result-cases (blocks.try_into_block p)) [
    | inr (e, q) ↦ rw (process_kasplex_execution_data, q) idle
    | inl (b, q) ↦
        rw (process_kasplex_execution_data, q) (take_all-IsIdle _ _ (sidecar-IsIdle _ extra m idle))
  ]

  pub checks-IsIdle :
      (p : ExecutionPayload blocks.V1) (m : TxMapping)
      → IsIdle m
      → IsIdle (ensure_well_formed_payload blocks p m).1
  checks-IsIdle p m idle = rw (same_mapping blocks p m) (processes-IsIdle p none m idle)

module _ (pool : Pool) where
  pub reorgs-IsIdle :
      (is_kasplex : Bool) (n : ℕ) (m : TxMapping) (txs : pool.State)
      → IsIdle m
      → IsIdle (handle_kasplex_pool_reorg pool is_kasplex n m txs).0
  unfolding handle_kasplex_pool_reorg TxMapping.mark_start_pool_reorg TxMapping.mark_pool_reorged
  reorgs-IsIdle false n m txs idle = idle
  reorgs-IsIdle true n m txs idle = (idle.0, refl)

module _ (node : SendNode) where
  open node use {State, hash, max_fee_per_gas, recover_raw_transaction, latest_header}

  set_transaction_number-IsIdle :
      (tx : node.Recovered) (m : TxMapping) (st : State)
      → IsIdle m
      → IsIdle (set_transaction_number node tx st m)
  unfolding set_transaction_number
  set_transaction_number-IsIdle tx m st idle = elim (Option-cases (latest_header st)) [
    | inl q ↦ rw (set_transaction_number, q) idle
    | inr (n, q) ↦ rw (set_transaction_number, q) (insert-IsIdle _ _ m idle)
  ]

  pub sends-IsIdle :
      (raw : List ℕ) (m : TxMapping) (st : State)
      → IsIdle m
      → IsIdle (send_raw_transaction node raw m st).1
  unfolding send_raw_transaction
  sends-IsIdle raw m st idle = elim (Bool-cases (length raw == 0)) [
    | inl q ↦ rw (send_raw_transaction, q) idle
    | inr q ↦ elim (Option-cases (recover_raw_transaction raw)) [
      | inl r ↦ rw (send_raw_transaction, q, r) idle
      | inr (tx, r) ↦ elim (Bool-cases (ltb (max_fee_per_gas tx) min_l2_base_fee)) [
        | inl low ↦ rw (send_raw_transaction, q, r, low) idle
        | inr high ↦
            let numbered = set_transaction_number-IsIdle tx m st idle in
            rw (send_raw_transaction, q, r, high, submit-mapping node) numbered
      ]
    ]
  ]

module _ (codec : Codec) (builder : Builder codec.Recovered) where
  open codec use {Recovered}
  open builder use {hash, transactions, finish, state_by_block_hash, apply_pre_execution_changes}

  store_numbers-IsIdle :
      (txs : List Recovered) (i : ℕ) (ns : List ℕ) (m : TxMapping)
      → IsIdle m
      → IsIdle (store_numbers codec builder txs i ns m)
  unfolding store_numbers
  store_numbers-IsIdle txs i [] m idle = idle
  store_numbers-IsIdle txs i (n ∷ ns) m idle = elim (Option-cases (get_elem? txs i)) [
    | inl q ↦ rw (store_numbers, q) (store_numbers-IsIdle txs (suc i) ns m idle)
    | inr (tx, q) ↦
        rw (store_numbers, q)
          (store_numbers-IsIdle txs (suc i) ns _ (insert-IsIdle (hash tx) n m idle))
  ]

  finish_payload-IsIdle :
      (attributes : BuilderAttributes codec) (provider : builder.Provider) (cells : Cells)
      (m : TxMapping) (exit : LoopExit codec builder)
      → IsIdle m
      → IsIdle (finish_payload codec builder attributes provider cells m exit).2
  unfolding finish_payload
  finish_payload-IsIdle attributes provider cells m cancelled idle = idle
  finish_payload-IsIdle attributes provider cells m panicked idle = idle
  finish_payload-IsIdle attributes provider cells m (fatal e) idle = idle
  finish_payload-IsIdle attributes provider cells m (done b) idle =
      elim (Result-cases (finish provider b.state)) [
        | inr (e, q) ↦ rw (finish_payload, q) idle
        | inl (block, q) ↦
            rw (finish_payload, q) (store_numbers-IsIdle (transactions block) 0 _ m idle)
      ]

  pub builds-IsIdle :
      (inner : InnerConfig) (parent : SealedHeader) (attributes : BuilderAttributes codec)
      (is_cancelled : ℕ → Bool) (cells : Cells) (m : TxMapping)
      → IsIdle m
      → IsIdle (kasplex_payload codec builder inner parent attributes is_cancelled cells m).2
  unfolding kasplex_payload
  builds-IsIdle inner parent attributes is_cancelled cells m idle =
      elim (Result-cases (state_by_block_hash parent.hash)) [
        | inr (e, q) ↦ rw (kasplex_payload, q) idle
        | inl (provider, q) ↦ elim (Option-cases (to_u64 attributes.base_fee_per_gas)) [
          | inl r ↦ rw (kasplex_payload, q, r) idle
          | inr (fee, r) ↦
              let opened = open_block codec builder inner parent attributes provider fee cells in
              elim (Result-cases (apply_pre_execution_changes opened.0).0) [
                | inr (e, w) ↦ rw (kasplex_payload, q, r, w) idle
                | inl (u, w) ↦
                    rw (kasplex_payload, q, r, w)
                      (finish_payload-IsIdle attributes provider opened.1 m _ idle)
              ]
        ]
      ]
