-- ===== src/Payload/Threads/Stale.antt =====
-- crates/payload/src/builder.rs: a build while other calls change the mapping. The loop reads the number
-- of each transaction before it is executed, and the numbers are stored after the block is finished;
-- here the mapping may change between the two.
use kx_reth.Prelude.{
  ℕ, ◌≡◌, refl, sym, ap, ◌∙◌, Bool, Option, none, some, List, [], map, arith, unwrap_or, contains,
  if◌then◌else◌, ok, err, Result-cases, inl, inr,
}
use mathlib.Core.List.{map-map}
use kx_reth.Prelude.Word.{to_u64, to_u64-cases}
use kx_reth.TxMapping
use kx_reth.TxMapping.{TxMapping}
use kx_reth.Block.{SealedHeader}
use kx_reth.Block.Config.{Cells, InnerConfig}
use kx_reth.Attributes.{Codec, BuilderAttributes}
use kx_reth.Payload.{
  Builder, Built, LoopExit, done, cancelled, panicked, fatal, BuiltPayload, Outcome, freeze,
  build_panicked, failed, extract_transaction_number, store_numbers, finish_payload,
  kasplex_payload, open_block, execute_all_transactions,
}
use kx_reth.Payload.Opening.{open_block_lem}
use kx_reth.Payload.Loop.{Counted, execute_all_transactions-Counted}
use kx_reth.Payload.Mapping.{store_numbers_from, started, start-Counted}

module _ (codec : Codec) (builder : Builder codec.Recovered) where
  open builder use {
    hash, executed, transactions, finish, finish_lem, state_by_block_hash,
    apply_pre_execution_changes, pre_execution_lem,
  }

  -- `kasplex_payload`, where the loop over the transactions reads one mapping, and the numbers are
  -- stored in another, which other calls have made of it meanwhile.
  unfoldable pub kasplex_payload_meanwhile :
      InnerConfig
      → SealedHeader
      → BuilderAttributes codec
      → (ℕ → Bool)
      → Cells
      → TxMapping
      → TxMapping
      → Outcome codec builder × Cells × TxMapping
  kasplex_payload_meanwhile inner parent attributes is_cancelled cells m later =
      elim (state_by_block_hash parent.hash) [
        | err e ↦ (failed e, cells, later)
        | ok provider ↦ elim (to_u64 attributes.base_fee_per_gas) [
          | none ↦ (build_panicked, cells, later)
          | some base_fee ↦
              let (s0, cells') =
                open_block codec builder inner parent attributes provider base_fee cells in
              let (r, s1) = apply_pre_execution_changes s0 in
              elim r [
                | err e ↦ (failed e, cells', later)
                | ok _ ↦
                    let start : Built codec builder = record {
                      state = s1;
                      total_fees = 0;
                      transaction_numbers = [];
                    } in
                    finish_payload codec builder attributes provider cells' later (
                      execute_all_transactions codec builder is_cancelled base_fee m 0
                        attributes.transactions start)
              ]
        ]
      ]

  -- With no other call meanwhile it is the build.
  pub nothing_meanwhile :
      (inner : InnerConfig) (parent : SealedHeader) (attributes : BuilderAttributes codec)
      (is_cancelled : ℕ → Bool) (cells : Cells) (m : TxMapping)
      → kasplex_payload_meanwhile inner parent attributes is_cancelled cells m m
        ≡ kasplex_payload codec builder inner parent attributes is_cancelled cells m
  unfolding kasplex_payload_meanwhile kasplex_payload
  nothing_meanwhile inner parent attributes is_cancelled cells m = refl

  -- What a look-up finds after the numbers of `m` are stored in `later`.
  abbrev pub stored_over : TxMapping → TxMapping → List ℕ → ℕ → Option ℕ
  stored_over m later hashes h =
      if contains h hashes
      then some (unwrap_or (TxMapping.get_submission_block h m) 0)
      else TxMapping.get_submission_block h later

  finish_meanwhile :
      (attributes : BuilderAttributes codec) (provider : builder.Provider) (cells cells' : Cells)
      (base_fee : ℕ) (m later m' : TxMapping) (exit : LoopExit codec builder)
      (p : BuiltPayload codec builder) (h : ℕ)
      → ((b : Built codec builder) → exit ≡ done b → Counted codec builder base_fee m b)
      → finish_payload codec builder attributes provider cells later exit ≡ (freeze p, cells', m')
      → TxMapping.get_submission_block h m'
        ≡ stored_over m later (map hash (transactions p.block)) h
  unfolding finish_payload
  finish_meanwhile attributes provider cells cells' base_fee m later m' cancelled p h c e = cc
  finish_meanwhile attributes provider cells cells' base_fee m later m' panicked p h c e = cc
  finish_meanwhile attributes provider cells cells' base_fee m later m' (fatal f) p h c e = cc
  finish_meanwhile attributes provider cells cells' base_fee m later m' (done b) p h c e =
      elim (Result-cases (finish provider b.state)) [
        | inr (f, q) ↦ ground (arith, q)
        | inl (block, q) ↦
            let same_block : p.block ≡ block = ground (arith, q, e) in
            let same_map : m'
                ≡ store_numbers codec builder (transactions block) 0 b.transaction_numbers later =
              ground (arith, q, e) in
            let of_block : b.transaction_numbers
                ≡ map (extract_transaction_number codec builder m) (transactions block) =
              (c b refl).numbers_counted
              ∙ sym (
                  map-map (extract_transaction_number codec builder m) (λ e. e.0)
                    (executed b.state))
              ∙ sym (
                  ap (map (extract_transaction_number codec builder m))
                    (finish_lem provider b.state block q)) in
            rw (same_map, same_block, of_block)
              (store_numbers_from codec builder [] (transactions block) m later h)
      ]

  -- A build that ends with a payload, while other calls turn the mapping `m` that its loop reads into
  -- `later`, stores the numbers of `m` over those of `later`: a transaction of the block is found under
  -- its number from `m`, or 0, also if it was sent again meanwhile under a newer number, or taken out of
  -- the mapping; every other look-up is that of `later`.
  pub stale_numbers_are_stored :
      (inner : InnerConfig) (parent : SealedHeader) (attributes : BuilderAttributes codec)
      (is_cancelled : ℕ → Bool) (cells cells' : Cells) (m later m' : TxMapping)
      (p : BuiltPayload codec builder) (h : ℕ)
      → kasplex_payload_meanwhile inner parent attributes is_cancelled cells m later
        ≡ (freeze p, cells', m')
      → TxMapping.get_submission_block h m'
        ≡ stored_over m later (map hash (transactions p.block)) h
  unfolding kasplex_payload_meanwhile
  stale_numbers_are_stored inner parent attributes is_cancelled cells cells' m later m' p h built =
      let fee = attributes.base_fee_per_gas in
      elim (Result-cases (state_by_block_hash parent.hash)) [
        | inr (e, q) ↦ ground (arith, q)
        | inl (provider, q) ↦ elim (to_u64-cases fee) [
          | inl (qf, big) ↦ ground (arith, q, qf)
          | inr (qf, small) ↦
              let opened = open_block codec builder inner parent attributes provider fee cells in
              let known = open_block_lem codec builder inner parent attributes provider fee cells in
              let start = started codec builder opened.0 in
              let counted = start-Counted codec builder fee m opened.0 known.0 in
              elim (Result-cases (apply_pre_execution_changes opened.0).0) [
                | inr (e, qp) ↦ ground (arith, q, qf, qp, built)
                | inl (u, qp) ↦
                    finish_meanwhile attributes provider opened.1 cells' fee m later m'
                      (execute_all_transactions codec builder is_cancelled fee m 0
                        attributes.transactions start)
                      p h
                      (λ b e.
                        execute_all_transactions-Counted codec builder is_cancelled fee m 0
                          attributes.transactions start b counted e)
                      (ground (arith, q, qf, qp, built))
              ]
        ]
      ]
