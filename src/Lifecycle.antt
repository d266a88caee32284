-- ===== src/Lifecycle.antt =====
-- The number of one transaction across crates/rpc, crates/payload and crates/primitives: it is set when
-- the transaction is sent, and taken when a payload with the transaction comes back.
pub mod Retention
use kx_reth.Prelude.{
  ℕ, ◌+◌, ◌≡◌, ◌≤◌, ◌<◌, true, Bool, Option, none, some, List, arith, length, contains, ok,
}
use kx_reth.Prelude.Word.{u64_mod}
use kx_reth.TxMapping
use kx_reth.TxMapping.{TxMapping}
use kx_reth.Block.{SealedHeader}
use kx_reth.Block.Config.{Cells, InnerConfig}
use kx_reth.Attributes.{Codec, BuilderAttributes}
use kx_reth.Payload.{Builder, BuiltPayload, freeze, kasplex_payload}
use kx_reth.Payload.Mapping.{kasplex_payload_freezes}
use kx_reth.Engine.{
  Block, Blocks, KasplexExecutionData, v1, block_to_payload, process_kasplex_execution_data,
}
use kx_reth.Engine.Numbers.{hashes, block_to_payload_lem, processed_numbers_are_gone}
use kx_reth.Auth.{SendNode, min_l2_base_fee, send_raw_transaction}
use kx_reth.Auth.Send.{send_raw_transaction_numbers}

module _ (node : SendNode) (codec : Codec) (builder : Builder codec.Recovered)
    (blocks : Blocks) where
  open node use {recover_raw_transaction, max_fee_per_gas, latest_header}

  -- A text that is not empty and decodes to a transaction that pays at least 2000 GWei is sent on top
  -- of block `number`, where `number + 1` fits a u64; then a block is built, with success; then a block
  -- is made into a payload; then a payload that converts to this block, which has the transaction, is
  -- processed, with a sidecar or without. After each of the first three steps the transaction is found
  -- under `number + 1`, whether or not the pool took it and whether or not the built block has it;
  -- after the last it is not found.
  pub number_from_send_to_payload :
      (raw : List ℕ) (tx : node.Recovered) (number : ℕ) (m m2 : TxMapping) (s : node.State)
      (inner : InnerConfig) (parent : SealedHeader) (attributes : BuilderAttributes codec)
      (is_cancelled : ℕ → Bool) (cells cells' : Cells) (p : BuiltPayload codec builder)
      (b : Block blocks.Tx) (payload : blocks.V1) (extra : Option (KasplexExecutionData blocks.V1))
      → 0 < length raw
      → recover_raw_transaction raw ≡ some tx
      → min_l2_base_fee ≤ max_fee_per_gas tx
      → latest_header s ≡ some number
      → number + 1 < u64_mod
      → kasplex_payload codec builder inner parent attributes is_cancelled cells
          (send_raw_transaction node raw m s).1
        ≡ (freeze p, cells', m2)
      → blocks.try_into_block payload ≡ ok b
      → contains (node.hash tx) (hashes blocks b) ≡ true
      → let m1 = (send_raw_transaction node raw m s).1 in
        let m3 = (block_to_payload blocks b m2).1 in
        let m4 = (process_kasplex_execution_data blocks (v1 payload) extra m3).1 in
        (TxMapping.get_submission_block (node.hash tx) m1 ≡ some (number + 1))
        × (TxMapping.get_submission_block (node.hash tx) m2 ≡ some (number + 1))
        × (TxMapping.get_submission_block (node.hash tx) m3 ≡ some (number + 1))
        × (TxMapping.get_submission_block (node.hash tx) m4 ≡ none)
  number_from_send_to_payload raw tx number m m2 s inner parent attributes is_cancelled cells cells'
        p b payload extra some_bytes decodes pays latest small built converts in_block =
      let h = node.hash tx in
      let m1 = (send_raw_transaction node raw m s).1 in
      let m3 = (block_to_payload blocks b m2).1 in
      let sent : TxMapping.get_submission_block h m1 ≡ some (number + 1) = ground (
        arith,
        send_raw_transaction_numbers node raw tx number m s h some_bytes decodes pays latest small,
      ) in
      let frozen =
        kasplex_payload_freezes codec builder inner parent attributes is_cancelled cells cells' m1
          m2 p built in
      let kept : TxMapping.get_submission_block h m2 ≡ some (number + 1) =
        ground (arith, frozen.1.look_ups h, sent) in
      let shown : TxMapping.get_submission_block h m3 ≡ some (number + 1) =
        ground (arith, (block_to_payload_lem blocks b m2 h).3, kept) in
      (
        sent,
        kept,
        shown,
        ground
            (arith, (processed_numbers_are_gone blocks payload extra b m3 h converts).1, in_block),
      )
