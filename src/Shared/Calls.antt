-- ===== src/Shared/Calls.antt =====
-- What one call of crates/rpc, crates/payload, crates/primitives or crates/txpool does to the numbers in
-- the shared mapping.
use kx_reth.Prelude.{
  ℕ, ◌≡◌, ◌≢◌, refl, sym, ap, ◌∙◌, Bool, true, false, ◌&&◌, ◌||◌, Option, none, some, List, [], ◌∷◌,
  ◌++◌, arith, ltb, ◌==◌, length, Bool-cases, Option-cases, Result-cases, ◌⊎◌, inl, inr,
}
use kx_reth.Prelude.Word.{add_u64}
use kx_reth.TxMapping
use kx_reth.TxMapping.{TxMapping, default}
use kx_reth.TxMapping.Laws.{get_submission_block-insert}
use kx_reth.TxPool.{Pool, handle_kasplex_pool_reorg}
use kx_reth.TxPool.Reorg.{pool_after_reorg, other_chain_untouched}
use kx_reth.Block.{SealedHeader}
use kx_reth.Block.Config.{Cells, InnerConfig, new}
use kx_reth.Attributes.{Codec, BuilderAttributes}
use kx_reth.Payload.{
  Builder, BuiltPayload, Outcome, freeze, build_cancelled, build_panicked, failed, evm_failed,
  kasplex_payload,
}
use kx_reth.Payload.Mapping.{kasplex_payload_freezes, kasplex_payload_fails}
use kx_reth.Engine.{
  Block, Blocks, ExecutionPayload, v1, v2, v3, KasplexExecutionData, block_to_payload,
  process_kasplex_execution_data,
}
use kx_reth.Engine.Numbers.{block_to_payload_lem, processed_numbers_are_gone}
use kx_reth.Engine.Validator.{ensure_well_formed_payload}
use kx_reth.Auth.{SendNode, min_l2_base_fee, set_transaction_number, send_raw_transaction}
use kx_reth.Auth.Send.{submit-mapping}
use kx_reth.Shared.{number_given}

-- Every number of the second table is 0 or one of the first.
abbrev pub OldNumbers : TxMapping → TxMapping → Type 0
OldNumbers m m' =
    (h n : ℕ)
    → TxMapping.get_submission_block h m' ≡ some n
    → (n ≡ 0) ⊎ (TxMapping.get_submission_block h m ≡ some n)

module _ (blocks : Blocks) where
  pub hands_out_lem :
      (b : Block blocks.Tx) (m : TxMapping) → OldNumbers m (block_to_payload blocks b m).1
  hands_out_lem b m h n found = ground (arith, (block_to_payload_lem blocks b m h).3, found)

  pub processes_lem :
      (p : ExecutionPayload blocks.V1) (extra : Option (KasplexExecutionData blocks.V1))
      (m : TxMapping)
      → OldNumbers m (process_kasplex_execution_data blocks p extra m).1
  unfolding process_kasplex_execution_data
  processes_lem v2 extra m h n found = inr found
  processes_lem v3 extra m h n found = inr found
  processes_lem (v1 p) extra m h n found = elim (Result-cases (blocks.try_into_block p)) [
    | inr (e, q) ↦ inr (ground (arith, q, found))
    | inl (b, q) ↦ ground (arith, (processed_numbers_are_gone blocks p extra b m h q).1, found)
  ]

  pub same_mapping :
      (p : ExecutionPayload blocks.V1) (m : TxMapping)
      → (ensure_well_formed_payload blocks p m).1
        ≡ (process_kasplex_execution_data blocks p none m).1
  unfolding ensure_well_formed_payload
  same_mapping p m = elim (Result-cases (process_kasplex_execution_data blocks p none m).0) [
    | inr (e, q) ↦ ground (arith, q)
    | inl (b, q) ↦ ground (arith, q)
  ]

  pub checks_lem :
      (p : ExecutionPayload blocks.V1) (m : TxMapping)
      → OldNumbers m (ensure_well_formed_payload blocks p m).1
  checks_lem p m h n found =
      processes_lem p none m h n
        (ap (TxMapping.get_submission_block h) (sym (same_mapping p m)) ∙ found)

module _ (pool : Pool) where
  pub reorgs_lem :
      (is_kasplex : Bool) (n : ℕ) (m : TxMapping) (txs : pool.State) (h : ℕ)
      → TxMapping.get_submission_block h (handle_kasplex_pool_reorg pool is_kasplex n m txs).0
        ≡ TxMapping.get_submission_block h m
  unfolding TxMapping.get_submission_block
  reorgs_lem true n m txs h =
      ap (TxMapping.get_submission_block h) (pool_after_reorg pool n m txs h).1
  reorgs_lem false n m txs h =
      ap (λ (r : TxMapping × pool.State). TxMapping.get_submission_block h r.0)
        (other_chain_untouched pool n m txs)

module _ (codec : Codec) (builder : Builder codec.Recovered) where
  without_payload :
      (inner : InnerConfig) (parent : SealedHeader) (attributes : BuilderAttributes codec)
      (is_cancelled : ℕ → Bool) (cells cells' : Cells) (m m' : TxMapping)
      (o : Outcome codec builder)
      → kasplex_payload codec builder inner parent attributes is_cancelled cells m ≡ (o, cells', m')
      → ((p : BuiltPayload codec builder) → o ≢ freeze p)
      → cells ≡ new
      → (cells' ≡ new) × OldNumbers m m'
  without_payload inner parent attributes is_cancelled cells cells' m m' o built bad clean =
      let left =
        kasplex_payload_fails codec builder inner parent attributes is_cancelled cells cells' m m' o
          built bad in
      let emptied : cells' ≡ new = elim left.1 [ inl same ↦ same ∙ clean | inr e ↦ e ] in
      (emptied, λ h n found. inr (ap (TxMapping.get_submission_block h) (sym left.0) ∙ found))

  outcome_lem :
      (inner : InnerConfig) (parent : SealedHeader) (attributes : BuilderAttributes codec)
      (is_cancelled : ℕ → Bool) (cells cells' : Cells) (m m' : TxMapping)
      (o : Outcome codec builder)
      → kasplex_payload codec builder inner parent attributes is_cancelled cells m ≡ (o, cells', m')
      → cells ≡ new
      → (cells' ≡ new) × OldNumbers m m'
  outcome_lem inner parent attributes is_cancelled cells cells' m m' (freeze p) built clean =
      let frozen =
        (kasplex_payload_freezes codec builder inner parent attributes is_cancelled cells cells' m
          m' p built).1 in
      (frozen.cells_cleared, λ h n found. ground (arith, frozen.look_ups h, found))
  outcome_lem inner parent attributes is_cancelled cells cells' m m' build_cancelled built clean =
      without_payload inner parent attributes is_cancelled cells cells' m m' build_cancelled built
        (λ p e. cc) clean
  outcome_lem inner parent attributes is_cancelled cells cells' m m' build_panicked built clean =
      without_payload inner parent attributes is_cancelled cells cells' m m' build_panicked built
        (λ p e. cc) clean
  outcome_lem inner parent attributes is_cancelled cells cells' m m' (failed e) built clean =
      without_payload inner parent attributes is_cancelled cells cells' m m' (failed e) built
        (λ p q. cc) clean
  outcome_lem inner parent attributes is_cancelled cells cells' m m' (evm_failed e) built clean =
      without_payload inner parent attributes is_cancelled cells cells' m m' (evm_failed e) built
        (λ p q. cc) clean

  pub builds_lem :
      (inner : InnerConfig) (parent : SealedHeader) (attributes : BuilderAttributes codec)
      (is_cancelled : ℕ → Bool) (cells : Cells) (m : TxMapping)
      → cells ≡ new
      → let built = kasplex_payload codec builder inner parent attributes is_cancelled cells m in
        (built.1 ≡ new) × OldNumbers m built.2
  builds_lem inner parent attributes is_cancelled cells m clean =
      let built = kasplex_payload codec builder inner parent attributes is_cancelled cells m in
      outcome_lem inner parent attributes is_cancelled cells built.1 m built.2 built.0 refl clean

-- The number was given out for the hash.
abbrev pub was_given : ℕ → ℕ → List (ℕ × ℕ) → Bool
was_given h n [] = false
was_given h n (g ∷ gs) = ((g.0 == h) && (g.1 == n)) || was_given h n gs

module _ (node : SendNode) where
  open node use {Recovered, State, hash, max_fee_per_gas, recover_raw_transaction, latest_header}

  pub sends_lem :
      (raw : List ℕ) (m : TxMapping) (st : State) (h n : ℕ) (given : List (ℕ × ℕ))
      → TxMapping.get_submission_block h (send_raw_transaction node raw m st).1 ≡ some n
      → (TxMapping.get_submission_block h m ≡ some n)
        ⊎ (was_given h n (number_given node raw st ++ given) ≡ true)
  unfolding send_raw_transaction set_transaction_number
  sends_lem raw m st h n given found = elim (Bool-cases (length raw == 0)) [
    | inl q ↦ inl (ground (arith, found, q))
    | inr q ↦ elim (Option-cases (recover_raw_transaction raw)) [
      | inl r ↦ inl (ground (arith, found, q, r))
      | inr (tx, r) ↦ elim (Bool-cases (ltb (max_fee_per_gas tx) min_l2_base_fee)) [
        | inl low ↦ inl (ground (arith, found, q, r, low))
        | inr high ↦ elim (Option-cases (latest_header st)) [
          | inl l ↦ inl (ground (arith, found, q, r, high, l, submit-mapping node tx m st))
          | inr (number, l) ↦
              let m' = TxMapping.insert (hash tx) (add_u64 number 1) m in
              ground (
                arith,
                found,
                q,
                r,
                high,
                l,
                submit-mapping node tx m' st,
                ap (TxMapping.get_submission_block h) (submit-mapping node tx m' st),
                get_submission_block-insert (hash tx) h (add_u64 number 1) m,
              )
        ]
      ]
    ]
  ]
