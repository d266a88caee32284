-- ===== src/Tests/Engines.antt =====
-- crates/rpc/src/engine and crates/primitives/src/engine: a block of the transaction 7 as a payload, and
-- two calls of the engine API. A transaction is its hash, and a payload is its block with a hash.
use kx_reth.Prelude.{
  inl, ℕ, ◌≡◌, ◌≢◌, ◌↔◌, ◌⊎◌, refl, true, false, not, ◌&&◌, none, some, [], ◌∷◌, arith, contains,
  Result, ok,
}
use kx_reth.TxMapping
use kx_reth.TxMapping.{TxMapping}
use kx_reth.TxPool.{in_pool, is_transaction_expired_for_pool}
use kx_reth.TxPool.Reorg.{numbered}
use kx_reth.TxPool.Memory.{Lists, memory_pool}
use kx_reth.Attributes.{BuilderAttributes, try_new}
use kx_reth.Engine.{
  Block, Blocks, KasplexExecutionData, v1, fix_withdrawals_root, process_kasplex_execution_data,
}
use kx_reth.Engine.Numbers.{processed_numbers_are_gone}
use kx_reth.Engine.Validator.{
  ensure_well_formed_payload, ensure_well_formed_payload_iff, checked_time_is_not_built_time,
  validate_payload_attributes_against_header,
}
use kx_reth.Engine.Api.{Reth, NodeState, new_payload_v2, fork_choice_updated_v2}
use kx_reth.Engine.Cleanup.{new_payload_v2_clears_block, fork_choice_updated_v2_clears_expired}
use kx_reth.Tests.Builders.{byte_codec, parent_header, rpc_attributes, table}

-- alloy's V1 payload, as a block with the hash that it names
abbrev pub NamedBlock : Type 0
NamedBlock = ℕ × Block ℕ

abbrev pub convert : NamedBlock → Result (Unit {0}) (Block ℕ)
convert p = ok p.1

abbrev pub recover_block : Block ℕ → Result (Unit {0}) (Block ℕ)
recover_block b = ok b

abbrev pub numbered_blocks : Blocks
numbered_blocks = record {
  Tx = ℕ;
  V1 = NamedBlock;
  Error = Unit;
  Recovered = Block ℕ;
  hash = λ tx. tx;
  block_hash = λ p. p.0;
  base_fee_per_gas = λ p. 5;
  hash_slow = λ h. h.number;
  empty_withdrawals = 8;
  base_fee_error = tt;
  from_block_unchecked = λ h b. (h, b);
  try_into_block = convert;
  try_recover = recover_block;
  block_hash_lem = λ h b. refl;
  base_fee_lem = λ p b e. omega arith;
}

abbrev pub one_block : Block ℕ
one_block = record { header = parent_header; transactions = 7 ∷ [] }

abbrev pub data_of_block : KasplexExecutionData NamedBlock
data_of_block = record {
  execution_payload = (160, one_block);
  kasplex_sidecar = record {
    tx_hash = 0;
    withdrawals_hash = 0;
    numbers = 33 ∷ [];
    kasplex_block = true;
  };
}

processed_numbers_are_gone_example :
    ((process_kasplex_execution_data numbered_blocks
        (v1 (160, one_block))
        (some data_of_block)
        table).0
      ≡ ok (fix_withdrawals_root numbered_blocks one_block))
    × (TxMapping.get_submission_block 7
          (process_kasplex_execution_data numbered_blocks
            (v1 (160, one_block))
            (some data_of_block)
            table).1
        ≡ none)
processed_numbers_are_gone_example =
    processed_numbers_are_gone numbered_blocks (160, one_block) (some data_of_block) one_block table
      7 refl

abbrev named_hash : ℕ
named_hash = 160

ensure_well_formed_payload_iff_example :
    let fixed = fix_withdrawals_root numbered_blocks one_block in
    let out = ensure_well_formed_payload numbered_blocks (v1 (named_hash, one_block)) table in
    ((((named_hash ≡ 0) ⊎ (named_hash ≡ fixed.header.number)) × (recover_block fixed ≡ ok fixed))
      ↔ (out.0 ≡ some (ok fixed)))
    × (out.0 ≢ none)
    × (TxMapping.get_submission_block 7 out.1 ≡ none)
ensure_well_formed_payload_iff_example =
    ensure_well_formed_payload_iff numbered_blocks (named_hash, one_block) one_block table
      (fix_withdrawals_root numbered_blocks one_block) 7 refl

-- the header has the time 699 and the attributes 700; the block is built with the time 1
checked_time_is_not_built_time_example :
    let early = record rpc_attributes {
      block_metadata = record rpc_attributes.block_metadata { timestamp = 1 };
    } in
    (b : BuilderAttributes byte_codec) × (validate_payload_attributes_against_header early
        parent_header
      ≡ ok tt)
    × (try_new byte_codec 5 early 2 ≡ some (ok b))
    × (b.timestamp ≡ 1)
unfolding validate_payload_attributes_against_header
checked_time_is_not_built_time_example =
    checked_time_is_not_built_time byte_codec 5 2 parent_header rpc_attributes 1 (omega arith) refl

abbrev Node : Type 0
Node = NodeState ℕ Lists

-- the world is the number of the head
abbrev follower : Reth numbered_blocks memory_pool
follower = record {
  World = ℕ;
  RpcError = Unit;
  ProviderError = Unit;
  PayloadStatus = Unit;
  ForkchoiceState = ℕ;
  ForkchoiceUpdated = Unit;
  Attributes = Unit;
  head_block_hash = λ h. h;
  new_payload_v2 = λ p node. (ok tt, node);
  fork_choice_updated_v2 = λ head a node. (ok tt, record node { world = head });
  block_by_hash = λ h world. ok (some (7 ∷ []));
  header_by_hash = λ h world. ok (some world);
  best_block_number = λ world. ok world;
}

abbrev two_lists : Lists
two_lists = record { pending = 7 ∷ 8 ∷ []; queued = 9 ∷ [] }

abbrev node : Node
node = record { world = 160; mapping = table; txs = two_lists }

new_payload_v2_clears_block_example :
    let out = new_payload_v2 numbered_blocks memory_pool follower data_of_block node in
    (out.0 ≡ ok tt)
    × (in_pool memory_pool 7 out.1.txs
        ≡ (in_pool memory_pool 7 two_lists && not (contains 7 (7 ∷ []))))
    × (out.1.mapping ≡ table)
new_payload_v2_clears_block_example =
    new_payload_v2_clears_block numbered_blocks memory_pool follower data_of_block node tt (7 ∷ [])
      7 refl refl

fork_choice_updated_v2_clears_expired_example :
    let out = fork_choice_updated_v2 numbered_blocks memory_pool follower true 150 none node in
    (out.0 ≡ ok tt)
    × (in_pool memory_pool 7 out.1.txs ≡ (
        in_pool memory_pool 7 two_lists
        && not (is_transaction_expired_for_pool 7 table 150 && numbered 7 table)))
    × (out.1.mapping ≡ record table { reorg_in_progress = false })
    × (out.1.world ≡ 150)
fork_choice_updated_v2_clears_expired_example =
    fork_choice_updated_v2_clears_expired numbered_blocks memory_pool follower 150 none node tt 150
      7 refl (inl refl)
