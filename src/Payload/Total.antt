-- ===== src/Payload/Total.antt =====
-- crates/payload/src/builder.rs: when a build ends with a payload.
use kx_reth.Prelude.{ℕ, ◌≡◌, ◌%◌, ◌<◌, Bool, false, some, List, ok, arith}
use kx_reth.Prelude.Word.{u64_mod, u256_mod, to_u64}
use kx_reth.TxMapping.{TxMapping}
use kx_reth.Block.{SealedHeader}
use kx_reth.Block.Config.{Cells, InnerConfig, new}
use kx_reth.Attributes.{Codec, BuilderAttributes}
use kx_reth.Payload.{
  Builder, BuiltPayload, freeze, store_numbers, finish_payload, kasplex_payload, open_block,
}
use kx_reth.Payload.Opening.{open_block_lem}
use kx_reth.Payload.Loop.{Runs, taken, left, fees, numbers, execute_all_transactions_finishes}
use kx_reth.Payload.Mapping.{Frozen, started, kasplex_payload_freezes}

module _ (codec : Codec) (builder : Builder codec.Recovered) where
  open codec use {Recovered}
  open builder use {
    State, Block, state_by_block_hash, apply_pre_execution_changes, finish, transactions,
  }

  -- What reth's block builder, opened at the state `opened`, does on the transactions of a job: its
  -- first call succeeds, single transactions may be refused, none fails fatally, each that runs has an
  -- effective tip, and after them the block can be finished.
  pub record Cooperates (base_fee : ℕ) (txs : List Recovered) (provider : builder.Provider)
      (opened : State) : Type 0 where
    pub prepares : (apply_pre_execution_changes opened).0 ≡ ok tt
    pub runs : Runs codec builder base_fee txs (apply_pre_execution_changes opened).1
    pub block : Block
    pub finishes : finish provider (left codec builder runs) ≡ ok block

  -- If the parent's state is there, the base fee fits a u64, the job is never cancelled, and reth's
  -- block builder, opened for the job, starts, has no fatal failure on the job's transactions and an
  -- effective tip for each that runs, and can finish the block after them, then the build ends with a
  -- payload of this block, whichever transactions are refused. The payload's fees are the sum, modulo
  -- 2 ^ 256, of effective tip times gas over the transactions that ran; the cells are empty; and the
  -- mapping has the numbers of the transactions that ran stored for the block. The payload is as every
  -- payload is.
  pub kasplex_payload_delivers :
      (inner : InnerConfig) (parent : SealedHeader) (attributes : BuilderAttributes codec)
      (is_cancelled : ℕ → Bool) (cells : Cells) (m : TxMapping) (provider : builder.Provider)
      → state_by_block_hash parent.hash ≡ ok provider
      → attributes.base_fee_per_gas < u64_mod
      → ((i : ℕ) → is_cancelled i ≡ false)
      → (c : Cooperates attributes.base_fee_per_gas attributes.transactions provider
          (open_block codec builder inner parent attributes provider attributes.base_fee_per_gas
            cells).0)
      → let ran = taken codec builder c.runs in
        let p : BuiltPayload codec builder = record {
          id = attributes.payload_attributes.id;
          block = c.block;
          fees = fees codec builder attributes.base_fee_per_gas ran % u256_mod;
        } in
        let m' =
          store_numbers codec builder (transactions c.block) 0 (numbers codec builder m ran) m in
        (kasplex_payload codec builder inner parent attributes is_cancelled cells m
          ≡ (freeze p, new, m'))
        × Frozen codec builder m attributes.base_fee_per_gas p new m'
  unfolding kasplex_payload finish_payload
  kasplex_payload_delivers inner parent attributes is_cancelled cells m provider found small go_on
        c =
      let fee = attributes.base_fee_per_gas in
      let opened = open_block codec builder inner parent attributes provider fee cells in
      let start = started codec builder opened.0 in
      let looped =
        execute_all_transactions_finishes codec builder is_cancelled fee m 0 start go_on
          (omega arith) c.runs in
      let fits : to_u64 fee ≡ some fee = ground (arith, small) in
      let ran = taken codec builder c.runs in
      let p : BuiltPayload codec builder = record {
        id = attributes.payload_attributes.id;
        block = c.block;
        fees = fees codec builder fee ran % u256_mod;
      } in
      let m' =
        store_numbers codec builder (transactions c.block) 0 (numbers codec builder m ran) m in
      let delivered : kasplex_payload codec builder inner parent attributes is_cancelled cells m
          ≡ (freeze p, new, m') =
        ground (
          arith,
          found,
          fits,
          c.prepares,
          looped.1,
          looped.2.state_left,
          looped.2.fees_added,
          looped.2.numbers_added,
          c.finishes,
          (open_block_lem codec builder inner parent attributes provider fee cells).1,
        ) in
      (
        delivered,
        (kasplex_payload_freezes codec builder inner parent attributes is_cancelled cells new m m' p
            delivered).1,
      )
