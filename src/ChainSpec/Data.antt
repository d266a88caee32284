-- ===== src/ChainSpec/Data.antt =====
-- The data that crates/chainspec is built from: alloy's hardforks with their conditions, the genesis
-- block, and the parameter for the operations on them that are not in the repository.
use kx_reth.Prelude.{ℕ, Option, List}

-- alloy's `EthereumHardfork`: those that crates/chainspec/src/hardfork.rs lists, and the others by number
pub data Hardfork : Type 0 where
  frontier homestead tangerine spurious_dragon byzantium constantinople : Hardfork
  petersburg istanbul berlin london paris shanghai : Hardfork
  unlisted : ℕ → Hardfork

-- alloy's `ForkCondition`; `ttd` has the activation block, the fork block and the total difficulty
pub data ForkCondition : Type 0 where
  block timestamp : ℕ → ForkCondition
  ttd : ℕ → Option ℕ → ℕ → ForkCondition
  never : ForkCondition

-- alloy's `Genesis`, with the fields that lib.rs sets; of its `config` the chain id
pub record Genesis (Account : Type 0) : Type 0 where
  pub chain_id : ℕ
  pub extra_data : List ℕ
  pub gas_limit : ℕ
  pub base_fee_per_gas : Option ℕ
  pub difficulty : ℕ
  pub timestamp : ℕ
  pub nonce : ℕ
  pub mix_hash : ℕ
  pub alloc : List (ℕ × Account)
  pub number : Option ℕ
  pub parent_hash : ℕ
  pub coinbase : ℕ
  pub blob_gas_used : Option ℕ
  pub excess_blob_gas : Option ℕ

pub record Alloy : Type 1 where
  pub Account : Type 0
  pub Header : Type 0
  pub make_genesis_header : Genesis Account → List (Hardfork × ForkCondition) → Header
  pub hash_slow : Header → ℕ

-- the two panics of `make_kasplex_chain_spec`, and the error of `parse_genesis`
pub data ChainError : Type 0 where
  genesis_not_deserialized genesis_hash_mismatch not_a_genesis : ChainError
