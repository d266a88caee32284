-- ===== src/Payload/Mapping.antt =====
-- crates/payload/src/builder.rs: what a build leaves in the transaction mapping and in the cells of the
-- EVM configuration.
use mathlib.Core.List.{append_assoc, map-map}
use kx_reth.Prelude.{
  ℕ, suc, ◌%◌, ◌≡◌, ◌<◌, refl, sym, ap, ◌∙◌, Bool, Option, some, List, [], ◌∷◌, ◌++◌, map, arith,
  unwrap_or, length, length-append, contains, get_elem?-append, if◌then◌else◌, Result-cases, inl,
  inr, ◌⊎◌, ◌≢◌,
}
use kx_reth.Prelude.Word.{u64_mod, u256_mod, to_u64-cases}
use kx_reth.TxMapping
use kx_reth.TxMapping.Laws.{get_submission_block-insert}
use kx_reth.TxMapping.{TxMapping}
use kx_reth.Block.{SealedHeader}
use kx_reth.Block.Config.{Cells, InnerConfig, new}
use kx_reth.Payload.Opening.{open_block_lem}
use kx_reth.Payload.Loop.{fees, numbers, Counted, execute_all_transactions-Counted}
use kx_reth.Attributes.{Codec, BuilderAttributes}
use kx_reth.Payload.{
  Builder, Built, LoopExit, done, cancelled, panicked, fatal, store_numbers,
  extract_transaction_number, BuiltPayload, Outcome, freeze, finish_payload, kasplex_payload,
  open_block, execute_all_transactions,
}

module _ (codec : Codec) (builder : Builder codec.Recovered) where
  open codec use {Recovered}
  open builder use {
    hash, executed, transactions, finish, finish_lem, state_by_block_hash,
    apply_pre_execution_changes, create_block_builder, created_lem, pre_execution_lem,
  }

  -- What the numbers of the block's transactions make of a look-up: a transaction of the block is
  -- found, with the number that it had before or with 0.
  abbrev pub look_up_after : TxMapping → List ℕ → ℕ → Option ℕ
  look_up_after m hashes h =
      let before = TxMapping.get_submission_block h m in
      if contains h hashes then some (unwrap_or before 0) else before

  length-snoc : (xs : List Recovered) (x : Recovered) → length (xs ++ x ∷ []) ≡ suc (length xs)
  length-snoc xs x = omega (arith, length-append xs (x ∷ []))

  pub store_numbers_from :
      (pre txs : List Recovered) (m0 m : TxMapping) (h : ℕ)
      → TxMapping.get_submission_block h (
          store_numbers codec builder
            (pre ++ txs)
            (length pre)
            (map (extract_transaction_number codec builder m0) txs)
            m)
        ≡ (if contains h (map hash txs)
            then some (unwrap_or (TxMapping.get_submission_block h m0) 0)
            else TxMapping.get_submission_block h m)
  unfolding store_numbers extract_transaction_number
  store_numbers_from pre [] m0 m h = refl
  store_numbers_from pre (tx ∷ txs) m0 m h =
      let m1 = TxMapping.insert (hash tx) (extract_transaction_number codec builder m0 tx) m in
      let ih = store_numbers_from (pre ++ tx ∷ []) txs m0 m1 h in
      let ih' = rw (append_assoc pre (tx ∷ []) txs, length-snoc pre tx) at ih in
      rw (get_elem?-append pre tx txs, store_numbers)
        (ground (
          arith,
          ih',
          get_submission_block-insert (hash tx) h (extract_transaction_number codec builder m0 tx)
              m,
          ap (λ k. unwrap_or (TxMapping.get_submission_block k m0) 0),
        ))

  -- What a payload is worth, and what the build has left behind.
  pub record Frozen (m : TxMapping) (base_fee : ℕ) (p : BuiltPayload codec builder) (cells : Cells)
      (m' : TxMapping) : Type 0 where
    pub at_end : builder.State
    pub block_holds : transactions p.block ≡ map (λ (e : Recovered × ℕ). e.0) (executed at_end)
    pub fees_summed : p.fees ≡ fees codec builder base_fee (executed at_end) % u256_mod
    pub cells_cleared : cells ≡ new
    pub look_ups :
        (h : ℕ)
        → TxMapping.get_submission_block h m' ≡ look_up_after m (map hash (transactions p.block)) h

  finish_payload_freezes :
      (attributes : BuilderAttributes codec) (provider : builder.Provider) (cells : Cells)
      (m : TxMapping) (base_fee : ℕ) (exit : LoopExit codec builder)
      (p : BuiltPayload codec builder) (cells' : Cells) (m' : TxMapping)
      → ((b : Built codec builder) → exit ≡ done b → Counted codec builder base_fee m b)
      → cells ≡ new
      → finish_payload codec builder attributes provider cells m exit ≡ (freeze p, cells', m')
      → Frozen m base_fee p cells' m'
  unfolding finish_payload
  finish_payload_freezes attributes provider cells m base_fee cancelled p cells' m' c n h = cc
  finish_payload_freezes attributes provider cells m base_fee panicked p cells' m' c n h = cc
  finish_payload_freezes attributes provider cells m base_fee (fatal e) p cells' m' c n h = cc
  finish_payload_freezes attributes provider cells m base_fee (done b) p cells' m' c n h =
      elim (Result-cases (finish provider b.state)) [
        | inr (e, q) ↦ ground (arith, q)
        | inl (block, q) ↦
            let counted = c b refl in
            let held = finish_lem provider b.state block q in
            let same_block : p.block ≡ block = ground (arith, q) in
            let same_fees : p.fees ≡ b.total_fees = ground (arith, q) in
            let same_cells : cells' ≡ cells = ground (arith, q) in
            let same_map : m'
                ≡ store_numbers codec builder (transactions block) 0 b.transaction_numbers m =
              ground (arith, q) in
            let of_block : b.transaction_numbers
                ≡ map (extract_transaction_number codec builder m) (transactions block) =
              counted.numbers_counted
              ∙ sym (
                  map-map (extract_transaction_number codec builder m) (λ e. e.0)
                    (executed b.state))
              ∙ sym (ap (map (extract_transaction_number codec builder m)) held) in
            record {
              at_end = b.state;
              block_holds = ap transactions same_block ∙ held;
              fees_summed = same_fees ∙ counted.fees_counted;
              cells_cleared = same_cells ∙ n;
              look_ups = λ h.
                  rw (same_map, same_block, of_block)
                    (store_numbers_from [] (transactions block) m m h);
            }
      ]

  -- The local variables before the loop.
  abbrev pub started : builder.State → Built codec builder
  started s = record {
    state = (apply_pre_execution_changes s).1;
    total_fees = 0;
    transaction_numbers = [];
  }

  pub start-Counted :
      (fee : ℕ) (m : TxMapping) (s : builder.State)
      → executed s ≡ []
      → Counted codec builder fee m (started s)
  start-Counted fee m s empty =
      let nothing : executed (apply_pre_execution_changes s).1 ≡ [] = pre_execution_lem s ∙ empty in
      record {
        fees_counted = sym (ap (λ es. fees codec builder fee es % u256_mod) nothing);
        numbers_counted = sym (ap (numbers codec builder m) nothing);
      }

  -- A build that ends with a payload started with a base fee that fits a u64. Its block holds the
  -- transactions that reth's block builder took in; its fees are the sum, modulo 2 ^ 256, of effective
  -- tip times gas over them; the cells of the configuration are empty again; and in the mapping every
  -- transaction of the block is found, under its number from before the build or 0, while all other
  -- look-ups are as before.
  pub kasplex_payload_freezes :
      (inner : InnerConfig) (parent : SealedHeader) (attributes : BuilderAttributes codec)
      (is_cancelled : ℕ → Bool) (cells cells' : Cells) (m m' : TxMapping)
      (p : BuiltPayload codec builder)
      → kasplex_payload codec builder inner parent attributes is_cancelled cells m
        ≡ (freeze p, cells', m')
      → (attributes.base_fee_per_gas < u64_mod) × Frozen m attributes.base_fee_per_gas p cells' m'
  unfolding kasplex_payload
  kasplex_payload_freezes inner parent attributes is_cancelled cells cells' m m' p h =
      let fee = attributes.base_fee_per_gas in
      elim (Result-cases (state_by_block_hash parent.hash)) [
        | inr (e, q) ↦ ground (arith, q)
        | inl (provider, q) ↦ elim (to_u64-cases fee) [
          | inl (qf, big) ↦ ground (arith, q, qf)
          | inr (qf, small) ↦
              let opened = open_block codec builder inner parent attributes provider fee cells in
              let known = open_block_lem codec builder inner parent attributes provider fee cells in
              let start = started opened.0 in
              let counted = start-Counted fee m opened.0 known.0 in
              elim (Result-cases (apply_pre_execution_changes opened.0).0) [
                | inr (e, qp) ↦ ground (arith, q, qf, qp)
                | inl (u, qp) ↦ (
                  small,
                  finish_payload_freezes attributes provider opened.1 m fee
                      (execute_all_transactions codec builder is_cancelled fee m 0
                        attributes.transactions start)
                      p cells' m'
                      (λ b e.
                        execute_all_transactions-Counted codec builder is_cancelled fee m 0
                          attributes.transactions start b counted e)
                      known.1 (ground (arith, q, qf, qp)),
                )
              ]
        ]
      ]

  finish_payload_fails :
      (attributes : BuilderAttributes codec) (provider : builder.Provider) (cells cells' : Cells)
      (m m' : TxMapping) (exit : LoopExit codec builder) (o : Outcome codec builder)
      → finish_payload codec builder attributes provider cells m exit ≡ (o, cells', m')
      → ((p : BuiltPayload codec builder) → o ≢ freeze p)
      → (m' ≡ m) × (cells' ≡ cells)
  unfolding finish_payload
  finish_payload_fails attributes provider cells cells' m m' cancelled o h bad = (cc, cc)
  finish_payload_fails attributes provider cells cells' m m' panicked o h bad = (cc, cc)
  finish_payload_fails attributes provider cells cells' m m' (fatal e) o h bad = (cc, cc)
  finish_payload_fails attributes provider cells cells' m m' (done b) o h bad =
      elim (Result-cases (finish provider b.state)) [
        | inr (e, q) ↦ ground (arith, q)
        | inl (block, q) ↦ absurd (
            bad
              (record { id = attributes.payload_attributes.id; block = block; fees = b.total_fees })
              (ground (arith, q)))
      ]

  -- A build that ends without a payload leaves the mapping as it was, and the cells either as they
  -- were or empty.
  pub kasplex_payload_fails :
      (inner : InnerConfig) (parent : SealedHeader) (attributes : BuilderAttributes codec)
      (is_cancelled : ℕ → Bool) (cells cells' : Cells) (m m' : TxMapping)
      (o : Outcome codec builder)
      → kasplex_payload codec builder inner parent attributes is_cancelled cells m ≡ (o, cells', m')
      → ((p : BuiltPayload codec builder) → o ≢ freeze p)
      → (m' ≡ m) × ((cells' ≡ cells) ⊎ (cells' ≡ new))
  unfolding kasplex_payload
  kasplex_payload_fails inner parent attributes is_cancelled cells cells' m m' o h bad =
      elim (Result-cases (state_by_block_hash parent.hash)) [
        | inr (e, q) ↦ (ground (arith, q), inl (ground (arith, q)))
        | inl (provider, q) ↦ elim (to_u64-cases attributes.base_fee_per_gas) [
          | inl (qf, big) ↦ (ground (arith, q, qf), inl (ground (arith, q, qf)))
          | inr (qf, small) ↦
              let opened =
                open_block codec builder inner parent attributes provider
                  attributes.base_fee_per_gas cells in
              let known =
                open_block_lem codec builder inner parent attributes provider
                  attributes.base_fee_per_gas cells in
              elim (Result-cases (apply_pre_execution_changes opened.0).0) [
                | inr (e, qp) ↦
                    (ground (arith, q, qf, qp), inr (ground (arith, q, qf, qp, known.1)))
                | inl (u, qp) ↦
                    let done_with =
                      finish_payload_fails attributes provider opened.1 cells' m m'
                        (execute_all_transactions codec builder is_cancelled
                          attributes.base_fee_per_gas m 0 attributes.transactions
                          (record {
                            state = (apply_pre_execution_changes opened.0).1;
                            total_fees = 0;
                            transaction_numbers = [];
                          }))
                        o (ground (arith, q, qf, qp)) bad in
                    (done_with.0, inr (done_with.1 ∙ known.1))
              ]
        ]
      ]
